-- ===== src/Tests/Pools.antt =====
-- The provisioner on a small cluster.
use xenonite.Base.{◌≡◌, ◌↔◌, refl, ◌≤◌, subst, true, List, [], ◌∷◌, Any, arith, inl, inr}
use xenonite.Base.Dict.{entry, lookup}
use xenonite.Api.Core.{Pod}
use xenonite.Api.Labels.{label_node_pool}
use xenonite.Api.NodeClaim.{XenonNodeClaim}
use xenonite.Api.NodePool.{XenonNodePool}
use xenonite.Base.Int.{◌-ℤ◌, ◌+ℤ◌}
use xenonite.Exec.{ok, History, External, request, now, attempt, pure, lift, ◌>>=◌}
use xenonite.Provisioner.Pods.{
  is_pod_unschedulable, pod_requests_pool, requested_pool_name, is_reschedulable_pod,
}
use xenonite.Provisioner.Pods.Requests.{Asks, pod_requests_pool_iff}
use xenonite.Provisioner.Pods.States.{MustMove, is_reschedulable_pod_iff}
use xenonite.Provisioner.Watches.{Object, pool_for_claim}
use xenonite.Provisioner.ScaleUp.{
  pool_node_limit, in_flight, claims_needed, new_claim, create_claim, create_claims, scale_up,
}
use xenonite.Provisioner.ScaleUp.Counts.{creations, shortage}
use xenonite.Provisioner.ScaleUp.Claims.{SetsOwnerOnly, made-pool_for_claim}
use xenonite.Provisioner.ScaleDown.{
  scale_down, is_claim_node_empty, mark_empty_and_check_grace, sub_time, scale_down_claim,
  clear_empty_since,
}
use xenonite.Provisioner.ScaleDown.Deletes.{DeletesIt, IsExpired, scale_down-IsExpired}
use xenonite.Provisioner.Reconcile.{
  reevaluate_interval, pending_for, pending_pods_for_pool, claims_for_pool, update_status,
  reconcile_pool,
}
use xenonite.Provisioner.Reconcile.Serves.{Serves, reconcile_pool-Serves}
use xenonite.Provisioner.Reconcile.Exclusive.{Exclusive, reconcile_pool-Exclusive}
use xenonite.Provisioner.Reconcile.Limit.{reconcile_pool-shortage}
use xenonite.Provisioner.Reconcile.Expiry.{IsIdle, reconcile_pool-IsIdle}
use xenonite.Tests.World.{world, pool, new_machine, waiting_pod}

-- Empty since the beginning of 1970, ten minutes before the clock's time.
abbrev idle : XenonNodeClaim
idle = record new_machine {
  metadata = record new_machine.metadata {
    annotations = ("xenonite.io/empty-since", "1970-01-01T00:00:00Z") ∷ [];
  };
}

abbrev ext : External
ext = world (record {
  claim = idle;
  pool_found = true;
  proxmox_up = true;
  pods = waiting_pod ∷ waiting_pod ∷ waiting_pod ∷ [];
  claims = idle ∷ [];
})

pod_requests_pool_iff_example :
    (pod_requests_pool waiting_pod "spare" ≡ true) ↔ Asks waiting_pod "spare"
pod_requests_pool_iff_example = pod_requests_pool_iff waiting_pod "spare"

named : requested_pool_name waiting_pod ≡ "gpu"
unfolding requested_pool_name lookup
named = refl

is_reschedulable_pod_iff_example : (is_reschedulable_pod waiting_pod ≡ true) ↔ MustMove waiting_pod
is_reschedulable_pod_iff_example = is_reschedulable_pod_iff waiting_pod

-- Three pods wait, one claim is there and not ready, and the limit is two.
short_of_one : shortage ext pool (waiting_pod ∷ waiting_pod ∷ waiting_pod ∷ []) (idle ∷ []) ≡ 1
unfolding pool_node_limit in_flight lookup
short_of_one = refl

abbrev owned_by : XenonNodePool → XenonNodeClaim → XenonNodeClaim
owned_by p claim = record claim {
  metadata = record claim.metadata {
    owner_references = record { kind = "XenonNodePool"; name = p.metadata.name } ∷ [];
  };
}

owner_only : SetsOwnerOnly ext
owner_only p claim owned e =
    let same : owned_by p claim ≡ owned = ground arith in
    subst
      (λ o. o ≡ record claim {
        metadata = record claim.metadata { owner_references = o.metadata.owner_references };
      })
      same refl

abbrev made : XenonNodeClaim
made = owned_by pool (new_claim pool)

made-pool_for_claim_example :
    (pool_for_claim (Object.claim made) ≡ "gpu" ∷ [])
    × (entry label_node_pool made.metadata.labels ≡ "gpu")
made-pool_for_claim_example = made-pool_for_claim ext owner_only pool made (λ e. cc) refl

deletes : Any (DeletesIt idle) (scale_down ext pool [] (idle ∷ []) []).1
unfolding scale_down ◌>>=◌ request now scale_down_claim is_claim_node_empty
    mark_empty_and_check_grace lookup sub_time ◌-ℤ◌
deletes = inr (inr (inr (inl refl)))

scale_down-IsExpired_example :
    (◌≡◌ {A = List Pod} [] [])
    × Any (λ claim. (claim ≡ idle) × (g : History) × IsExpired ext claim g) (idle ∷ [])
scale_down-IsExpired_example = scale_down-IsExpired ext pool [] (idle ∷ []) idle [] deletes

reconcile_pool-Exclusive_example : Exclusive (reconcile_pool ext "gpu" []).1
reconcile_pool-Exclusive_example = reconcile_pool-Exclusive ext "gpu" []

reconcile_pool-shortage_example :
    creations (reconcile_pool ext "gpu" []).1
    ≤ shortage ext pool
        (pending_for "gpu" (waiting_pod ∷ waiting_pod ∷ waiting_pod ∷ []))
        (idle ∷ [])
reconcile_pool-shortage_example =
    reconcile_pool-shortage ext "gpu" [] pool (waiting_pod ∷ waiting_pod ∷ waiting_pod ∷ [])
      (idle ∷ []) refl refl refl refl

served : (reconcile_pool ext "gpu" []).0 ≡ ok (record { requeue_after = reevaluate_interval })
unfolding reconcile_pool pending_pods_for_pool claims_for_pool pending_for is_pod_unschedulable
    pod_requests_pool scale_up create_claims create_claim claims_needed in_flight pool_node_limit
    new_claim scale_down clear_empty_since update_status lookup ◌+ℤ◌ ◌-ℤ◌ ◌>>=◌ request attempt pure
    lift
served = refl

reconcile_pool-Serves_example :
    Serves
      (shortage ext pool
        (pending_for "gpu" (waiting_pod ∷ waiting_pod ∷ waiting_pod ∷ []))
        (idle ∷ []))
      (record { requeue_after = reevaluate_interval })
      (reconcile_pool ext "gpu" []).1
reconcile_pool-Serves_example =
    reconcile_pool-Serves ext "gpu" [] pool (waiting_pod ∷ waiting_pod ∷ waiting_pod ∷ [])
      (idle ∷ []) (record { requeue_after = reevaluate_interval }) refl refl refl refl served

-- No pod waits.
abbrev calm : External
calm =
    world
      (record { claim = idle; pool_found = true; proxmox_up = true; pods = []; claims = idle ∷ [] })

scales_down : Any (DeletesIt idle) (reconcile_pool calm "gpu" []).1
unfolding reconcile_pool pending_pods_for_pool claims_for_pool pending_for scale_up scale_down ◌>>=◌
    request now scale_down_claim is_claim_node_empty mark_empty_and_check_grace lookup sub_time ◌-ℤ◌
scales_down = inr (inr (inr (inr (inr (inr (inl refl))))))

reconcile_pool-IsIdle_example : IsIdle calm idle
reconcile_pool-IsIdle_example = reconcile_pool-IsIdle calm "gpu" [] idle scales_down
