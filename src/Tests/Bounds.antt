-- ===== src/Tests/Bounds.antt =====
-- The longest runs on the small cluster.
use xenonite.Base.{◌≡◌, refl, none, true, [], ◌∷◌, arith}
use xenonite.Exec.{request, ◌>>=◌}
use xenonite.Exec.Bounded.{Bounded, calls, waits}
use xenonite.Claim.Reconcile.{
  XenonNodeClaimReconciler, render_cloud_init, read_secret_key, factory, resolve_provider,
  reconcile_create, reconcile_live, reconcile_claim,
}
use xenonite.Base.Dict.{lookup}
use xenonite.Base.Int.{quot}
use xenonite.Claim.Objects.{create_request, requested_size}
use xenonite.Claim.Methods.{ensure_finalizer, with_user_data}
use xenonite.Proxmox.{target_node, new_backend, configure_options, create_machine}
use xenonite.Proxmox.ProviderId.{new_provider_id}
use xenonite.Claim.Bounded.{reconcile_claim-Bounded}
use xenonite.Provisioner.Reconcile.{reconcile_pool}
use xenonite.Provisioner.Reconcile.Bounded.{ListsWithin, reconcile_pool-Bounded}
use xenonite.Tests.World.{Scene, world, new_machine, waiting_pod}

abbrev scene : Scene
scene = record {
  claim = new_machine;
  pool_found = true;
  proxmox_up = true;
  pods = waiting_pod ∷ [];
  claims = new_machine ∷ [];
}

abbrev reconciler : XenonNodeClaimReconciler
reconciler = record { new_provider = none; system_namespace = "xenonite-system" }

reconcile_claim-Bounded_example : Bounded 19 1800 (reconcile_claim (world scene) reconciler "gpu-1")
reconcile_claim-Bounded_example = reconcile_claim-Bounded (world scene) reconciler refl "gpu-1"

one_each : ListsWithin (world scene) 1 1
one_each = record { pods = λ h ps e. ground arith; claims = λ h pool cs e. ground arith }

reconcile_pool-Bounded_example : Bounded 8 0 (reconcile_pool (world scene) "gpu")
reconcile_pool-Bounded_example = reconcile_pool-Bounded (world scene) 1 1 one_each "gpu"

-- A claim whose machine is made in one run takes as many calls, and waits for as long,
-- as may be.
longest :
    (calls (reconcile_claim (world scene) reconciler "gpu-1" []).1 ≡ 19)
    × (waits (reconcile_claim (world scene) reconciler "gpu-1" []).1 ≡ 1800)
unfolding reconcile_claim ensure_finalizer resolve_provider factory reconcile_create reconcile_live
    read_secret_key create_request requested_size with_user_data render_cloud_init create_machine
    configure_options new_provider_id target_node new_backend ◌>>=◌ request lookup quot
longest = (refl, refl)
