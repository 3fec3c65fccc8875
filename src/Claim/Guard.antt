-- ===== src/Claim/Guard.antt =====
-- When a claim's controller may clone a VM: only while the claim that it read, or wrote last, is
-- not being deleted, is known to hold the finalizer and has no providerID, and once.
pub mod Rules
pub mod Backend
pub mod Lifecycle
use xenonite.Base.{Where, ◌≡◌, Bool, true, false, ◌==◌, List, [], ◌∷◌}
use xenonite.Api.Core.{is_zero}
use xenonite.Api.Labels.{finalizer_node_claim}
use xenonite.Api.NodeClaim.{XenonNodeClaim}
use xenonite.Exec.{Call, Event, called, ok, External}

-- What the calls so far show of the claim in the API server.
pub record Seen : Type 0 where
  pub alive : Bool  -- it was read, and was not being deleted
  pub held : Bool  -- it has the finalizer
  pub fresh : Bool  -- it has no providerID, and no VM was cloned for it since

abbrev pub clones : Event → Bool
clones (called (Call.pve_clone _ _) _) = true
clones _ = false

-- No call that changes what is seen.
abbrev pub IsQuiet : Call → Type 0
IsQuiet (Call.get_claim _) = ⊥
IsQuiet (Call.update_claim _) = ⊥
IsQuiet (Call.pve_clone _ _) = ⊥
IsQuiet _ = Unit

module _ (ext : External) where
  abbrev pub holds : XenonNodeClaim → Bool
  holds claim = ext.contains_finalizer claim.metadata.finalizers finalizer_node_claim

  abbrev pub is_fresh : XenonNodeClaim → Bool
  is_fresh claim = claim.status.provider_id == ""

  abbrev pub seen_after : Seen → Event → Seen
  seen_after s (called (Call.get_claim _) (ok c)) = record {
    alive = is_zero c.metadata.deletion_timestamp;
    held = holds c;
    fresh = is_fresh c;
  }
  seen_after s (called (Call.update_claim c) (ok c')) = record {
    alive = s.alive;
    held = holds c;
    fresh = is_fresh c';
  }
  seen_after s (called (Call.pve_clone _ _) _) = record {
    alive = s.alive;
    held = s.held;
    fresh = false;
  }
  seen_after s _ = s

  -- Every clone in the events is made while the claim is alive, held and fresh.
  abbrev pub Guarded : Seen → List Event → Type 0
  Guarded s [] = Unit
  Guarded s (e ∷ es) =
      Where (clones e) ((s.alive ≡ true) × (s.held ≡ true) × (s.fresh ≡ true))
      × Guarded (seen_after s e) es
