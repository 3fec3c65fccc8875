-- ===== src/Provisioner/Reconcile.antt =====
-- internal/controller/provisioner_controller.go: the reconciler.
pub mod Exclusive
pub mod Limit
pub mod Expiry
pub mod Clears
pub mod Bounded
pub mod Serves
use xenonite.Base.{String, ◌&&◌, not, none, some, List, [], ◌∷◌, if◌then◌else◌}
use xenonite.Base.Int.{ℤ, pos}
use xenonite.Api.Core.{text, condition_true, Pod, is_zero, CtrlResult}
use xenonite.Api.NodeClaim.{XenonNodeClaim}
use xenonite.Api.NodePool.{XenonNodePool}
use xenonite.Exec.{
  Result, ok, err, Exec, External, get_pool, list_pods, list_claims, update_pool_status, pure,
  raise, attempt, request, ◌>>=◌, ◌>>◌,
}
use xenonite.Provisioner.Pods.{is_pod_unschedulable, pod_requests_pool}
use xenonite.Provisioner.ScaleUp.{scale_up}
use xenonite.Provisioner.ScaleDown.{scale_down}

-- 30 * time.Second
abbrev pub reevaluate_interval : ℤ
reevaluate_interval = pos 30_000_000_000

abbrev pub done : CtrlResult
done = record { requeue_after = pos 0 }

-- pending pods that select the pool
unfoldable pub pending_for : String → List Pod → List Pod
pending_for pool_name [] = []
pending_for pool_name (p ∷ pods) =
    let rest = pending_for pool_name pods in
    if is_pod_unschedulable p && pod_requests_pool p pool_name then p ∷ rest else rest

module _ (ext : External) where
  unfoldable pub update_status : XenonNodePool → Exec (Unit {0})
  update_status pool = do
    attempt (
        request ext (
          update_pool_status (record pool {
            status = record pool.status {
              conditions = ext.set_status_condition pool.status.conditions (record {
                type = "Active";
                status = condition_true;
                reason = "Reconciled";
                message = text "pool reconciled";
              });
            };
          })))
    pure tt

  unfoldable pub pending_pods_for_pool : String → Exec (List Pod)
  pending_pods_for_pool pool_name = do
    pods ← request ext list_pods
    pure (pending_for pool_name pods)

  unfoldable pub claims_for_pool : String → Exec (List XenonNodeClaim)
  claims_for_pool pool_name = request ext (list_claims pool_name)

  unfoldable pub with_pool : Result XenonNodePool → Exec CtrlResult
  with_pool (err e) = elim (ext.ignore_not_found e) [ none ↦ pure done | some e' ↦ raise e' ]
  with_pool (ok pool) = if not (is_zero pool.metadata.deletion_timestamp) then pure done else (do
    pending ← pending_pods_for_pool pool.metadata.name
    claims ← claims_for_pool pool.metadata.name
    scale_up ext pool pending claims
    scale_down ext pool pending claims
    update_status pool
    pure (record { requeue_after = reevaluate_interval }))

  -- Reconcile
  unfoldable pub reconcile_pool : String → Exec CtrlResult
  unfolding with_pool
  reconcile_pool name = do found ← attempt (request ext (get_pool name)); with_pool found
