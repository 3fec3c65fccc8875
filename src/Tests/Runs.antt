-- ===== src/Tests/Runs.antt =====
-- The controllers at work on the small cluster.
use xenonite.Base.{◌≡◌, refl, true, false, [], ◌∷◌, ◌++◌}
use xenonite.Base.Dict.{lookup}
use xenonite.Exec.{History, request, ◌>>=◌}
use xenonite.Claim.Reconcile.{reconcile_claim}
use xenonite.Cluster.Ledger.{ledger, IsOnce}
use xenonite.Cluster.Reach.{start, claim_run, Reaches-IsOnce}
use xenonite.Base.Dict.{insert}
use xenonite.Base.Int.{quot}
use xenonite.Claim.Objects.{create_request, requested_size, record_id, is_node_ready, node_labels}
use xenonite.Claim.Methods.{
  with_user_data, ensure_finalizer, after_create, set_condition, reconcile_readiness, label_node,
  ready_condition,
}
use xenonite.Claim.Reconcile.{
  reconcile_live, factory, resolve_provider, render_cloud_init, reconcile_create,
}
use xenonite.Proxmox.{create_machine, new_backend, target_node, configure_options}
use xenonite.Proxmox.ProviderId.{new_provider_id}
use xenonite.Tests.World.{Scene, new_machine, waiting_pod}
use xenonite.Tests.Keeping.{keeping, keeping-IsFaithful, reconciler}

abbrev scene : Scene
scene = record {
  claim = new_machine;
  pool_found = true;
  proxmox_up = true;
  pods = waiting_pod ∷ [];
  claims = [];
}

abbrev after_one : History
after_one = (reconcile_claim (keeping scene) reconciler "gpu-1" []).1

abbrev after_two : History
after_two = after_one ++ (reconcile_claim (keeping scene) reconciler "gpu-1" after_one).1

Reaches-IsOnce_example : IsOnce (ledger "gpu-1" after_two)
Reaches-IsOnce_example =
    Reaches-IsOnce (keeping scene) reconciler (keeping-IsFaithful scene) refl
      (claim_run (claim_run start "gpu-1") "gpu-1") "gpu-1"

-- The second run clones nothing.
made_one :
    ledger "gpu-1" after_two
    ≡ record { recorded = "proxmox://pve1/101"; made = 1; lost = 0; cloning = false }
unfolding ledger reconcile_claim reconcile_live ensure_finalizer resolve_provider render_cloud_init
    factory reconcile_create with_user_data create_machine ◌>>=◌ request target_node new_backend
    configure_options new_provider_id create_request requested_size lookup quot record_id
    after_create set_condition reconcile_readiness label_node ready_condition is_node_ready
    node_labels insert
made_one = refl
