-- ===== src/Cluster/Ledger.antt =====
-- What a history has made of one claim: the providerID that its status holds in the API server, how
-- many VMs were cloned under its name, and how often the id of one could not be kept.
use xenonite.Base.{
  ℕ, suc, ◌≤◌, ◌+◌, String, Bool, true, false, ◌==◌, ◌≡◌, refl, ◌∙◌, ap, List, [], ◌∷◌, ◌++◌, All,
  if◌then◌else◌,
}
use xenonite.Exec.{Call, Event, called, read_clock, ok, err, History}
use xenonite.Exec.Emits.{Allowed}

-- Lost: writes of the claim's status that were answered with an error, and accepted clones under its
-- name whose wait, made right after, was. Cloning: the last event is such a clone.
pub record Ledger : Type 0 where
  pub recorded : String
  pub made : ℕ
  pub lost : ℕ
  pub cloning : Bool

abbrev pub settled : Ledger → Ledger
settled l = if l.cloning then record l { cloning = false } else l

-- A status write that succeeds is kept, and so is a clone that Proxmox accepts.
abbrev pub entered : String → Ledger → Event → Ledger
entered name l (called (Call.update_claim_status c) (ok _)) =
    if c.metadata.name == name
    then record l { recorded = c.status.provider_id; cloning = false }
    else settled l
entered name l (called (Call.update_claim_status c) (err _)) =
    if c.metadata.name == name then record l { lost = suc l.lost; cloning = false } else settled l
entered name l (called (Call.pve_clone _ opts) (ok _)) =
    if opts.name == name then record l { made = suc l.made; cloning = true } else settled l
entered name l (called (Call.pve_wait _ _) (err _)) =
    if l.cloning then record l { lost = suc l.lost; cloning = false } else l
entered name l _ = settled l

unfoldable pub replay : String → Ledger → List Event → Ledger
replay name l [] = l
replay name l (e ∷ es) = replay name (entered name l e) es

pub replay-append :
    (name : String) (l : Ledger) (es fs : List Event)
    → replay name l (es ++ fs) ≡ replay name (replay name l es) fs
unfolding replay
replay-append name l [] fs = refl
replay-append name l (e ∷ es) fs = replay-append name (entered name l e) es fs

-- From a time before the claim.
unfoldable pub ledger : String → History → Ledger
unfolding replay
ledger name h = replay name (record { recorded = ""; made = 0; lost = 0; cloning = false }) h

pub ledger-append :
    (name : String) (h : History) (es : List Event)
    → ledger name (h ++ es) ≡ replay name (ledger name h) es
unfolding ledger
ledger-append name h es = replay-append name _ h es

pub ledger_last :
    (name : String) (h : History) (e : Event)
    → ledger name (h ++ e ∷ []) ≡ entered name (ledger name h) e
unfolding replay
ledger_last name h e = ledger-append name h (e ∷ [])

pub ledger_last_two :
    (name : String) (h : History) (d e : Event)
    → ledger name (h ++ d ∷ e ∷ []) ≡ entered name (entered name (ledger name h) d) e
unfolding replay
ledger_last_two name h d e = ledger-append name h (d ∷ e ∷ [])

pub ledger_nil :
    (name : String) → ledger name [] ≡ record { recorded = ""; made = 0; lost = 0; cloning = false }
unfolding ledger replay
ledger_nil name = refl

-- As many VMs as ids that are recorded or lost.
abbrev pub IsCovered : String → Ledger → Type 0
IsCovered id l = l.made ≤ (if id == "" then 0 else 1) + l.lost

-- One VM where a providerID is recorded, none before, and one more for each id that was lost.
abbrev pub IsOnce : Ledger → Type 0
IsOnce l = (l.cloning ≡ false) × IsCovered l.recorded l

-- The calls that leave every ledger alone.
abbrev pub IsNeutral : Call → Type 0
IsNeutral (Call.update_claim_status _) = ⊥
IsNeutral (Call.pve_clone _ _) = ⊥
IsNeutral _ = Unit

pub settled-same : (l : Ledger) → l.cloning ≡ false → settled l ≡ l
settled-same l calm = rw calm refl

pub entered-neutral :
    (name : String) (l : Ledger) (e : Event)
    → l.cloning ≡ false
    → Allowed IsNeutral e
    → entered name l e ≡ l
entered-neutral name l (read_clock _) calm q = rw calm refl
entered-neutral name l (called (Call.update_claim_status _) _) calm q = absurd q
entered-neutral name l (called (Call.pve_clone _ _) _) calm q = absurd q
entered-neutral name l (called (Call.pve_wait _ _) (ok _)) calm q = rw calm refl
entered-neutral name l (called (Call.pve_wait _ _) (err _)) calm q = rw calm refl
entered-neutral name l (called _ _) calm q = rw calm refl

pub replay-neutral :
    (name : String) (l : Ledger) (es : List Event)
    → l.cloning ≡ false
    → All (Allowed IsNeutral) es
    → replay name l es ≡ l
unfolding replay
replay-neutral name l [] calm q = refl
replay-neutral name l (e ∷ es) calm q =
    ap (λ k. replay name k es) (entered-neutral name l e calm q.0)
    ∙ replay-neutral name l es calm q.1

pub ledger-neutral :
    (name : String) (h : History) (es : List Event)
    → (ledger name h).cloning ≡ false
    → All (Allowed IsNeutral) es
    → ledger name (h ++ es) ≡ ledger name h
ledger-neutral name h es calm q =
    ledger-append name h es ∙ replay-neutral name (ledger name h) es calm q
