-- ===== src/Tests/Settling.antt =====
-- A claim with a machine whose node is ready.
use xenonite.Base.{◌≡◌, refl, none, true, []}
use xenonite.Base.Dict.{lookup, insert}
use xenonite.Api.NodeClaim.{XenonNodeClaim}
use xenonite.Exec.{ok, request, ◌>>=◌}
use xenonite.Claim.Objects.{done, is_node_ready, node_labels}
use xenonite.Claim.Methods.{ensure_finalizer, label_node, ready_condition, reconcile_readiness}
use xenonite.Claim.Reconcile.{
  XenonNodeClaimReconciler, factory, resolve_provider, reconcile_live, reconcile_claim,
}
use xenonite.Claim.Settles.{Settles, reconcile_claim-Settles}
use xenonite.Tests.World.{Scene, world, leaving}

abbrev running : XenonNodeClaim
running = record leaving { metadata = record leaving.metadata { deletion_timestamp = none } }

abbrev scene : Scene
scene = record { claim = running; pool_found = true; proxmox_up = true; pods = []; claims = [] }

abbrev reconciler : XenonNodeClaimReconciler
reconciler = record { new_provider = none; system_namespace = "xenonite-system" }

finished : (reconcile_claim (world scene) reconciler "gpu-1" []).0 ≡ ok done
unfolding reconcile_claim reconcile_live ensure_finalizer resolve_provider factory
    reconcile_readiness label_node ready_condition is_node_ready node_labels lookup insert ◌>>=◌
    request
finished = refl

reconcile_claim-Settles_example :
    Settles (world scene) running done (reconcile_claim (world scene) reconciler "gpu-1" []).1
reconcile_claim-Settles_example =
    reconcile_claim-Settles (world scene) reconciler "gpu-1" running [] done refl refl finished
