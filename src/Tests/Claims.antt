-- ===== src/Tests/Claims.antt =====
-- The reconciler of claims on a small cluster.
use xenonite.Base.{String, ◌≡◌, refl, none, true, [], ◌∷◌, Any, inl, inr}
use xenonite.Base.Int.{quot}
use xenonite.Base.Dict.{Dict, lookup, insert}
use xenonite.Api.Labels.{label_node_pool}
use xenonite.Exec.{ok, History, request, ◌>>=◌}
use xenonite.Proxmox.{
  create_machine, delete_machine, get_machine, new_backend, target_node, configure_options,
  proxmox_provider,
}
use xenonite.Proxmox.ProviderId.{new_provider_id, parse_provider_id}
use xenonite.Claim.Objects.{done, create_request, node_labels, requested_size, is_node_ready}
use xenonite.Claim.Methods.{
  with_user_data, reconcile_readiness, label_node, ready_condition, release_if_gone,
}
use xenonite.Claim.Reconcile.{
  XenonNodeClaimReconciler, factory, reconcile_claim, reconcile_delete, resolve_provider,
}
use xenonite.Claim.Guard.{Guarded}
use xenonite.Claim.Guard.Backend.{IsCarefulFactory, proxmox_provider-IsCareful}
use xenonite.Claim.Guard.Lifecycle.{unseen, reconcile_claim-Guarded}
use xenonite.Claim.TearDown.{Updates, IsVerified, reconcile_delete-IsVerified}
use xenonite.Claim.Recording.{IsRecorded, with_user_data-IsRecorded}
use xenonite.Tests.World.{
  Scene, world, world-HasFinalizerLaws, provider_spec, credentials, new_machine, leaving,
}

abbrev reconciler : XenonNodeClaimReconciler
reconciler = record { new_provider = none; system_namespace = "xenonite-system" }

abbrev scene : Scene
scene = record { claim = new_machine; pool_found = true; proxmox_up = true; pods = []; claims = [] }

careful : IsCarefulFactory (world scene) reconciler
unfolding factory
careful spec creds = proxmox_provider-IsCareful (world scene) spec creds

reconcile_claim-Guarded_example :
    Guarded (world scene) unseen (reconcile_claim (world scene) reconciler "gpu-1" []).1
reconcile_claim-Guarded_example =
    reconcile_claim-Guarded (world scene) reconciler careful (world-HasFinalizerLaws scene) "gpu-1"
      []

released : Any Updates (reconcile_delete (world scene) reconciler leaving []).1
unfolding reconcile_delete ◌>>=◌ request resolve_provider factory delete_machine get_machine
    new_backend parse_provider_id release_if_gone
released = inr (inr (inr (inr (inr (inr (inr (inr (inr (inr (inl tt))))))))))

reconcile_delete-IsVerified_example : IsVerified (world scene) reconciler leaving []
reconcile_delete-IsVerified_example =
    reconcile_delete-IsVerified (world scene) reconciler leaving [] careful (λ e. cc) released

-- What the backend does for the claim.
abbrev creation : History
creation =
    (create_machine (world scene) (new_backend provider_spec credentials)
      (create_request new_machine "#cloud-config") []).1

creates :
    create_machine
      (world scene)
      (new_backend provider_spec credentials)
      (create_request new_machine "#cloud-config")
      []
    ≡ (ok ("proxmox://pve1/101", none), creation)
unfolding create_machine ◌>>=◌ request target_node new_backend configure_options new_provider_id
    create_request requested_size lookup quot
creates = refl

with_user_data-IsRecorded_example :
    IsRecorded
      (world scene)
      "proxmox://pve1/101"
      []
      creation
      (with_user_data
        (world scene)
        new_machine
        (proxmox_provider (world scene) provider_spec credentials)
        (ok "#cloud-config")
        []).1
with_user_data-IsRecorded_example =
    with_user_data-IsRecorded (world scene) new_machine "proxmox://pve1/101" (λ e. cc) refl
      (proxmox_provider (world scene) provider_spec credentials) "#cloud-config" [] none creation
      creates

ready : (reconcile_readiness (world scene) new_machine []).0 ≡ ok done
unfolding reconcile_readiness ◌>>=◌ request label_node ready_condition is_node_ready node_labels
    lookup insert
ready = refl

abbrev labels : Dict String
labels = (label_node_pool, "old") ∷ ("zone", "a") ∷ []

finished : (reconcile_delete (world scene) reconciler leaving []).0 ≡ ok done
unfolding reconcile_delete ◌>>=◌ request resolve_provider factory delete_machine get_machine
    new_backend parse_provider_id release_if_gone
finished = refl
