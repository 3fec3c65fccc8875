-- ===== src/Provisioner/Reconcile/Expiry.antt =====
-- Which claims one `Reconcile` of a pool deletes.
use xenonite.Base.{String, List, [], ◌≡◌, inl, inr, arith, Any, Bool-cases, ◌∙◌}
use xenonite.Api.Core.{Pod, is_zero}
use xenonite.Api.NodeClaim.{XenonNodeClaim}
use xenonite.Api.NodePool.{XenonNodePool}
use xenonite.Exec.{
  Call, Event, called, read_clock, External, History, Result, ok, err, pure, raise, attempt,
  request,
}
use xenonite.Exec.Emits.{Allowed, Emits-bind, Emits-pure, Emits-widen, emits_rules}
use xenonite.Exec.Inversion.{Any-bind, Any-bind_later, not-Any-Allowed}
use xenonite.Exec.Failures.{ok-bind}
use xenonite.Provisioner.ScaleUp.{scale_up}
use xenonite.Provisioner.ScaleUp.Claims.{scale_up-IsCreationFor}
use xenonite.Provisioner.ScaleDown.{scale_down}
use xenonite.Provisioner.ScaleDown.Deletes.{DeletesIt, IsExpired, scale_down-IsExpired}
use xenonite.Provisioner.Reconcile.{
  update_status, pending_for, pending_pods_for_pool, claims_for_pool, with_pool, reconcile_pool,
}
use xenonite.Provisioner.Reconcile.Exclusive.{
  IsNoDeletion, no_deletion, creation-IsNoDeletion, update_status-IsNeutral, pending_pods-IsNeutral,
  claims-IsNeutral, settle,
}

deletion_excluded :
    (other : XenonNodeClaim) (e : Event) → Allowed IsNoDeletion e → DeletesIt other e → ⊥
deletion_excluded other (called (Call.delete_claim _) r) a d = a
deletion_excluded other (called _ r) a d = ground arith
deletion_excluded other (read_clock _) a d = d

-- What stands behind the deletion of a claim: the lists that the API server gave, of which the
-- pods hold none that waits for the pool, and the claims hold this one, expired.
pub record IsIdle (ext : External) (other : XenonNodeClaim) : Type 0 where
  pub pool : XenonNodePool
  pub pods : List Pod
  pub claims : List XenonNodeClaim
  pub at_pods : History
  pub at_claims : History
  pub listed_pods : ext.answer at_pods Call.list_pods ≡ ok pods
  pub listed_claims : ext.answer at_claims (Call.list_claims pool.metadata.name) ≡ ok claims
  pub none_waits : pending_for pool.metadata.name pods ≡ []
  pub expired : Any (λ claim. (claim ≡ other) × (g : History) × IsExpired ext claim g) claims

module _ (ext : External) (other : XenonNodeClaim) where
  settle-deletes :
      (pool : XenonNodePool) (pending : List Pod) (claims : List XenonNodeClaim) (h : History)
      → Any (DeletesIt other) (settle ext pool pending claims h).1
      → (pending ≡ [])
        × Any (λ claim. (claim ≡ other) × (g : History) × IsExpired ext claim g) claims
  settle-deletes pool pending claims h d =
      let (_, _, down) =
        Any-bind_later (DeletesIt other) (deletion_excluded other)
          (scale_up ext pool pending claims) _ h
          (Emits-widen (creation-IsNoDeletion ext pool) _
            (scale_up-IsCreationFor ext pool pending claims))
          d in
      elim (Any-bind (DeletesIt other) (scale_down ext pool pending claims) _ _ down) [
        | inl early ↦ scale_down-IsExpired ext pool pending claims other _ early
        | inr (_, _, late) ↦ absurd (
            not-Any-Allowed (DeletesIt other) (deletion_excluded other) _
              ((Emits-bind {allowed = IsNoDeletion} (update_status ext pool) _
                  (no_deletion _ (update_status-IsNeutral ext pool)) (λ _. Emits-pure _)).at
                _)
              late)
      ]

  pending_pods-listed :
      (name : String) (h : History) (pending : List Pod)
      → (pending_pods_for_pool ext name h).0 ≡ ok pending
      → (pods : List Pod) × (ext.answer h Call.list_pods ≡ ok pods)
        × (pending_for name pods ≡ pending)
  unfolding pending_pods_for_pool request pure
  pending_pods-listed name h pending e =
      let (pods, listed, selected, _) =
        ok-bind (request ext Call.list_pods) (λ pods. pure (pending_for name pods)) h pending e in
      (pods, listed, ground arith)

  with_pool-deletes :
      (found : Result XenonNodePool) (h : History)
      → Any (DeletesIt other) (with_pool ext found h).1
      → IsIdle ext other
  unfolding with_pool pure raise claims_for_pool request
  with_pool-deletes (err e) h d = ground arith
  with_pool-deletes (ok pool) h d = elim (Bool-cases (is_zero pool.metadata.deletion_timestamp)) [
    | inr gone ↦ absurd (rw gone at d)
    | inl alive ↦
        (let name = pool.metadata.name in
          let (pending, listed, d1) =
            Any-bind_later (DeletesIt other) (deletion_excluded other)
              (pending_pods_for_pool ext name) _ h (no_deletion _ (pending_pods-IsNeutral ext name))
              (rw alive at d) in
          let (claims, owned, d2) =
            Any-bind_later (DeletesIt other) (deletion_excluded other) (claims_for_pool ext name)
              (settle ext pool pending) _ (no_deletion _ (claims-IsNeutral ext name)) d1 in
          let (pods, answered, selected) = pending_pods-listed name h pending listed in
          let (none_left, expired) = settle-deletes pool pending claims _ d2 in
          record {
            pool = pool;
            pods = pods;
            claims = claims;
            at_pods = _;
            at_claims = _;
            listed_pods = answered;
            listed_claims = owned;
            none_waits = selected ∙ none_left;
            expired = expired;
          })
  ]

-- A claim that one `Reconcile` of a pool deletes was among the pool's claims that the API server
-- listed, had expired, and no pod that the API server listed was waiting for the pool.
pub reconcile_pool-IsIdle :
    (ext : External) (name : String) (h : History) (other : XenonNodeClaim)
    → Any (DeletesIt other) (reconcile_pool ext name h).1
    → IsIdle ext other
unfolding reconcile_pool
reconcile_pool-IsIdle ext name h other d =
    let (found, _, d1) =
      Any-bind_later (DeletesIt other) (deletion_excluded other)
        (attempt (request ext (Call.get_pool name))) (with_pool ext) h (search emits_rules) d in
    with_pool-deletes ext other found _ d1
