-- ===== src/Claim/Guard/Backend.antt =====
-- The backends that a claim's reconciler may build, and what they may call.
use xenonite.Base.{String, ◌≡◌, true, Option, none, some, List, arith, subst, sym}
use xenonite.Api.Core.{Arg}
use xenonite.Api.NodeClaim.{XenonNodeClaim}
use xenonite.Api.ProxmoxProvider.{ProxmoxProviderSpec, ProxmoxCredentials}
use xenonite.Exec.{Call, History, Result, ok, err, Exec, External, ◌>>=◌, request, attempt, wrap}
use xenonite.Exec.Emits.{Emits, Emits-widen, emits_rules}
use xenonite.Provider.{Provider, CreateRequest, Instance}
use xenonite.Proxmox.{ProxmoxBackend, clone_template, create_machine, new_backend, proxmox_provider}
use xenonite.Proxmox.Emits.{
  IsUpkeep, after_clone-IsUpkeep, delete_machine-IsUpkeep, get_machine-IsUpkeep,
}
use xenonite.Claim.Objects.{proxmox_credentials}
use xenonite.Claim.Methods.{remove_finalizer, with_user_data, release_if_gone}
use xenonite.Claim.Reconcile.{XenonNodeClaimReconciler, factory, resolve_provider}
use xenonite.Claim.Quiet.{
  IsReading, IsReporting, fail_with_status-IsReporting, after_create-IsReporting,
}
use xenonite.Claim.Guard.{Seen, IsQuiet, is_fresh}
use xenonite.Claim.Guard.Rules.{IsSafe, IsSafe-quiet, IsSafe-then_quiet, IsCloneless}

abbrev pub armed : Seen
armed = record { alive = true; held = true; fresh = true }

pub reading-IsQuiet : (c : Call) → IsReading c → IsQuiet c
reading-IsQuiet (Call.get_claim _) h = h
reading-IsQuiet (Call.update_claim _) h = h
reading-IsQuiet (Call.pve_clone _ _) h = h
reading-IsQuiet _ h = tt

pub reporting-IsQuiet : (c : Call) → IsReporting c → IsQuiet c
reporting-IsQuiet (Call.get_claim _) h = h
reporting-IsQuiet (Call.update_claim _) h = h
reporting-IsQuiet (Call.pve_clone _ _) h = h
reporting-IsQuiet _ h = tt

pub upkeep-IsQuiet : (c : Call) → IsUpkeep c → IsQuiet c
upkeep-IsQuiet (Call.get_claim _) h = h
upkeep-IsQuiet (Call.update_claim _) h = h
upkeep-IsQuiet (Call.pve_clone _ _) h = h
upkeep-IsQuiet _ h = tt

pub quiet-IsCloneless : (c : Call) → IsQuiet c → IsCloneless c
quiet-IsCloneless (Call.pve_clone _ _) h = h
quiet-IsCloneless _ h = tt

pub wrap_ok {ℓ} :
    {A : Type ℓ} (format : String) (args : List Arg) (m : Exec A) (h : History) (a : A)
    → (wrap format args m h).0 ≡ ok a
    → (m h).0 ≡ ok a
unfolding wrap
wrap_ok format args m h a e = ground arith

pub attempt_ok {ℓ} :
    {A : Type ℓ} (m : Exec A) (h : History) (res : Result A)
    → (attempt m h).0 ≡ ok res
    → (m h).0 ≡ res
unfolding attempt
attempt_ok m h res e = cc

-- A backend that clones at most once in `Create`, never elsewhere, and leaves the claims alone.
pub record IsCareful (ext : External) (prov : Provider) : Type 0 where
  pub creates : (req : CreateRequest) → IsSafe ext armed (prov.create req)
  pub deletes : (id : String) → Emits IsQuiet (prov.delete id)
  pub gets : (id : String) → Emits IsQuiet (prov.get id)

module _ (ext : External) where
  -- A claim that is alive and held.
  abbrev pub ready : XenonNodeClaim → Seen
  ready claim = record { alive = true; held = true; fresh = is_fresh ext claim }

  clone_template-IsSafe :
      (p : ProxmoxBackend) (req : CreateRequest)
      → IsSafe ext armed (attempt (clone_template ext p req))
  unfolding clone_template ◌>>=◌ request
  clone_template-IsSafe p req = record { at = λ h. ground arith }

  -- The Proxmox backend clones at most once in `Create`, never in `Delete` and `Get`, and reads or
  -- writes no claim.
  pub proxmox_provider-IsCareful :
      (spec : ProxmoxProviderSpec) (creds : ProxmoxCredentials)
      → IsCareful ext (proxmox_provider ext spec creds)
  unfolding create_machine
  proxmox_provider-IsCareful spec creds =
      let p = new_backend spec creds in
      record {
        creates = λ req.
            IsSafe-then_quiet ext _ _ (clone_template-IsSafe p req)
              (λ r. Emits-widen upkeep-IsQuiet _ (after_clone-IsUpkeep ext p req r));
        deletes = λ id. Emits-widen upkeep-IsQuiet _ (delete_machine-IsUpkeep ext p id);
        gets = λ id. Emits-widen upkeep-IsQuiet _ (get_machine-IsUpkeep ext p id);
      }

  pub with_user_data-IsSafe :
      (claim : XenonNodeClaim) (prov : Provider) (r : Result String)
      → IsCareful ext prov
      → IsSafe ext armed (with_user_data ext claim prov r)
  unfolding with_user_data
  with_user_data-IsSafe claim prov (err e) careful =
      IsSafe-quiet ext _ (Emits-widen reporting-IsQuiet _ (fail_with_status-IsReporting ext _ e))
  with_user_data-IsSafe claim prov (ok user_data) careful =
      IsSafe-then_quiet ext _ _ (careful.creates _)
        (λ (id, e). Emits-widen reporting-IsQuiet _ (after_create-IsReporting ext _ e))

  pub remove_finalizer-IsCloneless :
      (claim : XenonNodeClaim) → Emits IsCloneless (remove_finalizer ext claim)
  unfolding remove_finalizer
  remove_finalizer-IsCloneless claim = search emits_rules

  pub release_if_gone-IsCloneless :
      (claim : XenonNodeClaim) (inst : Option Instance)
      → Emits IsCloneless (release_if_gone ext claim inst)
  unfolding release_if_gone
  release_if_gone-IsCloneless claim none = remove_finalizer-IsCloneless claim
  release_if_gone-IsCloneless claim (some inst) = search emits_rules

  module _ (r : XenonNodeClaimReconciler) where
    pub resolve_provider-factory :
        (claim : XenonNodeClaim) (h : History) (prov : Provider) (spec : ProxmoxProviderSpec)
        → (resolve_provider ext r claim h).0 ≡ ok (prov, spec)
        → prov ≡ factory ext r spec (proxmox_credentials spec.credentials)
    unfolding resolve_provider ◌>>=◌ request
    resolve_provider-factory claim h prov spec e = ground arith

    -- Every backend that the reconciler may build is careful.
    abbrev pub IsCarefulFactory : Type 0
    IsCarefulFactory =
        (spec : ProxmoxProviderSpec) (creds : ProxmoxCredentials)
        → IsCareful ext (factory ext r spec creds)

    pub resolved-IsCareful :
        (claim : XenonNodeClaim) (h : History) (prov : Provider) (spec : ProxmoxProviderSpec)
        → IsCarefulFactory
        → (resolve_provider ext r claim h).0 ≡ ok (prov, spec)
        → IsCareful ext prov
    resolved-IsCareful claim h prov spec careful e =
        subst (IsCareful ext) (sym (resolve_provider-factory claim h prov spec e))
          (careful spec (proxmox_credentials spec.credentials))
