-- ===== src/Cluster/Pools.antt =====
-- The provisioner clones nothing and writes no claim's status.
use xenonite.Base.{String, List, Option-cases, inl, inr}
use xenonite.Api.Core.{Pod}
use xenonite.Api.NodeClaim.{XenonNodeClaim}
use xenonite.Api.NodePool.{XenonNodePool}
use xenonite.Exec.{Call, Result, ok, err, External}
use xenonite.Exec.Emits.{Emits, Emits-pure, Emits-raise, Emits-request, Emits-widen, emits_rules}
use xenonite.Provisioner.ScaleUp.Claims.{IsCreationFor, scale_up-IsCreationFor}
use xenonite.Provisioner.ScaleDown.Calls.{IsRemoving, scale_down-IsRemoving}
use xenonite.Provisioner.ScaleUp.{scale_up}
use xenonite.Provisioner.ScaleDown.{scale_down}
use xenonite.Provisioner.Reconcile.{
  update_status, pending_pods_for_pool, claims_for_pool, with_pool, reconcile_pool,
}
use xenonite.Cluster.Ledger.{IsNeutral}

creation-IsNeutral :
    (ext : External) (pool : XenonNodePool) (c : Call) → IsCreationFor ext pool c → IsNeutral c
creation-IsNeutral ext pool (Call.create_claim _) a = tt
creation-IsNeutral ext pool _ a = absurd a

removing-IsNeutral : (c : Call) → IsRemoving c → IsNeutral c
removing-IsNeutral (Call.update_claim_status _) a = a
removing-IsNeutral (Call.pve_clone _ _) a = a
removing-IsNeutral _ a = tt

module _ (ext : External) where
  update_status-IsNeutral : (pool : XenonNodePool) → Emits IsNeutral (update_status ext pool)
  unfolding update_status
  update_status-IsNeutral pool = search emits_rules

  pending_pods-IsNeutral : (name : String) → Emits IsNeutral (pending_pods_for_pool ext name)
  unfolding pending_pods_for_pool
  pending_pods-IsNeutral name = search emits_rules

  claims-IsNeutral : (name : String) → Emits IsNeutral (claims_for_pool ext name)
  unfolding claims_for_pool
  claims-IsNeutral name = Emits-request ext (Call.list_claims name) tt

  scale_up-IsNeutral :
      (pool : XenonNodePool) (pending : List Pod) (claims : List XenonNodeClaim)
      → Emits IsNeutral (scale_up ext pool pending claims)
  scale_up-IsNeutral pool pending claims =
      Emits-widen (creation-IsNeutral ext pool) _ (scale_up-IsCreationFor ext pool pending claims)

  scale_down-IsNeutral :
      (pool : XenonNodePool) (pending : List Pod) (claims : List XenonNodeClaim)
      → Emits IsNeutral (scale_down ext pool pending claims)
  scale_down-IsNeutral pool pending claims =
      Emits-widen removing-IsNeutral _ (scale_down-IsRemoving ext pool pending claims)

  with_pool-IsNeutral : (found : Result XenonNodePool) → Emits IsNeutral (with_pool ext found)
  unfolding with_pool
  with_pool-IsNeutral (err e) = elim (Option-cases (ext.ignore_not_found e)) [
    | inl gone ↦ rw (gone, with_pool) (Emits-pure _)
    | inr (f, failed) ↦ rw (failed, with_pool) (Emits-raise f)
  ]
  with_pool-IsNeutral (ok pool) =
      search
        (
          emits_rules, pending_pods-IsNeutral, claims-IsNeutral, scale_up-IsNeutral,
          scale_down-IsNeutral, update_status-IsNeutral,
        )
        depth 20

  pub reconcile_pool-IsNeutral : (name : String) → Emits IsNeutral (reconcile_pool ext name)
  unfolding reconcile_pool
  reconcile_pool-IsNeutral name = search (emits_rules, with_pool-IsNeutral)
