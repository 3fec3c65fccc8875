-- ===== src/Cluster/Work.antt =====
-- The calls that one `Reconcile` of a claim may make, and those of the Proxmox backend.
pub mod Reconcile
use xenonite.Base.{
  String, ◌==◌, not, Option, none, some, [], ◌≡◌, refl, sym, subst, Bool-cases, inl, inr, List,
  ◌++◌, All, All-append,
}
use xenonite.Api.Core.{Error, is_zero}
use xenonite.Api.Labels.{finalizer_node_claim}
use xenonite.Api.NodeClaim.{XenonNodeClaim}
use xenonite.Api.ProxmoxProvider.{ProxmoxProviderSpec, ProxmoxCredentials}
use xenonite.Provider.{Provider, Instance, CreateRequest}
use xenonite.Exec.{
  Call, Event, Result, ok, err, Exec, External, History, continue, attempt, wrap, request, pure,
  ◌>>=◌,
}
use xenonite.Exec.Emits.{
  Allowed, Emits, Emits-bind, Emits-bind-from, Emits-pure, Emits-raise, Emits-request,
  Emits-attempt, Emits-wrap, Emits-widen, emits_rules,
}
use xenonite.Claim.Objects.{with_finalizers, proxmox_credentials, create_request}
use xenonite.Claim.Methods.{
  after_create, with_user_data, ensure_finalizer, remove_finalizer, release_if_gone,
}
use xenonite.Claim.Reconcile.{
  XenonNodeClaimReconciler, factory, resolve_provider, reconcile_create, tear_down,
  reconcile_delete, with_provider, reconcile_live, with_claim, ignored, reconcile_claim,
}
use xenonite.Claim.Quiet.{
  IsReading, IsReporting, fail_with_status-IsReporting, after_create-IsReporting,
  reconcile_readiness-IsReporting, render_cloud_init-IsReading, resolve_provider-IsReading,
}
use xenonite.Claim.Guard.Backend.{attempt_ok, wrap_ok, resolve_provider-factory}
use xenonite.Proxmox.{ProxmoxBackend, clone_template, create_machine, proxmox_provider, new_backend}
use xenonite.Proxmox.Emits.{
  IsUpkeep, after_clone-IsUpkeep, delete_machine-IsUpkeep, get_machine-IsUpkeep,
}

-- Calls of Proxmox.
abbrev pub IsMachineCall : Call → Type 0
IsMachineCall (Call.pve_cluster _) = Unit
IsMachineCall (Call.pve_next_id _) = Unit
IsMachineCall (Call.pve_clone _ _) = Unit
IsMachineCall c = IsUpkeep c

-- Reading what the claim refers to, writing the claim and its status, labelling its node, and the
-- backend's calls: no claim is made, deleted or patched, and no pool written.
abbrev pub IsWork : Call → Type 0
IsWork (Call.get_claim _) = Unit
IsWork (Call.get_pool _) = Unit
IsWork (Call.get_provider _) = Unit
IsWork (Call.get_secret _ _) = Unit
IsWork (Call.get_node _) = Unit
IsWork (Call.patch_node _ _) = Unit
IsWork (Call.update_claim _) = Unit
IsWork (Call.update_claim_status _) = Unit
IsWork c = IsMachineCall c

pub reading-IsWork : (c : Call) → IsReading c → IsWork c
reading-IsWork (Call.get_pool _) a = tt
reading-IsWork (Call.get_provider _) a = tt
reading-IsWork (Call.get_secret _ _) a = tt
reading-IsWork _ a = absurd a

pub reporting-IsWork : (c : Call) → IsReporting c → IsWork c
reporting-IsWork (Call.get_node _) a = tt
reporting-IsWork (Call.patch_node _ _) a = tt
reporting-IsWork (Call.update_claim_status _) a = tt
reporting-IsWork _ a = absurd a

upkeep-IsMachineCall : (c : Call) → IsUpkeep c → IsMachineCall c
upkeep-IsMachineCall (Call.pve_cluster _) a = tt
upkeep-IsMachineCall (Call.pve_next_id _) a = tt
upkeep-IsMachineCall (Call.pve_clone _ _) a = tt
upkeep-IsMachineCall _ a = a

pub machine-IsWork : (c : Call) → IsMachineCall c → IsWork c
machine-IsWork (Call.get_claim _) a = tt
machine-IsWork (Call.get_pool _) a = tt
machine-IsWork (Call.get_provider _) a = tt
machine-IsWork (Call.get_secret _ _) a = tt
machine-IsWork (Call.get_node _) a = tt
machine-IsWork (Call.patch_node _ _) a = tt
machine-IsWork (Call.update_claim _) a = tt
machine-IsWork (Call.update_claim_status _) a = tt
machine-IsWork _ a = a

-- A backend that calls Proxmox only.
pub record CallsMachines (prov : Provider) : Type 0 where
  pub creates : (req : CreateRequest) → Emits IsMachineCall (prov.create req)
  pub deletes : (id : String) → Emits IsMachineCall (prov.delete id)
  pub gets : (id : String) → Emits IsMachineCall (prov.get id)

module _ (ext : External) where
  clone_template-IsMachineCall :
      (p : ProxmoxBackend) (req : CreateRequest) → Emits IsMachineCall (clone_template ext p req)
  unfolding clone_template
  clone_template-IsMachineCall p req = search emits_rules depth 30

  create_machine-IsMachineCall :
      (p : ProxmoxBackend) (req : CreateRequest) → Emits IsMachineCall (create_machine ext p req)
  unfolding create_machine
  create_machine-IsMachineCall p req =
      Emits-bind _ _ (Emits-attempt _ (clone_template-IsMachineCall p req))
        (λ r. Emits-widen upkeep-IsMachineCall _ (after_clone-IsUpkeep ext p req r))

  pub proxmox_provider-CallsMachines :
      (spec : ProxmoxProviderSpec) (creds : ProxmoxCredentials)
      → CallsMachines (proxmox_provider ext spec creds)
  proxmox_provider-CallsMachines spec creds = record {
    creates = create_machine-IsMachineCall (new_backend spec creds);
    deletes = λ id.
        Emits-widen upkeep-IsMachineCall _
          (delete_machine-IsUpkeep ext (new_backend spec creds) id);
    gets = λ id.
        Emits-widen upkeep-IsMachineCall _ (get_machine-IsUpkeep ext (new_backend spec creds) id);
  }
