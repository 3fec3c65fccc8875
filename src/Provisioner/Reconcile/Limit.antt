-- ===== src/Provisioner/Reconcile/Limit.antt =====
-- How many claims one `Reconcile` of a pool makes.
use xenonite.Base.{ℕ, ◌≤◌, String, List, [], ◌∷◌, ◌++◌, ◌≡◌, refl, true, All, arith}
use xenonite.Api.Core.{Pod, CtrlResult, is_zero}
use xenonite.Api.NodeClaim.{XenonNodeClaim}
use xenonite.Api.NodePool.{XenonNodePool}
use xenonite.Exec.{
  Call, Event, called, read_clock, External, History, Result, ok, err, Exec, continue, pure,
  attempt, request, ◌>>=◌, ◌>>◌,
}
use xenonite.Exec.Emits.{Allowed, Emits-bind, Emits-pure, Emits-widen}
use xenonite.Provisioner.ScaleUp.{scale_up}
use xenonite.Provisioner.ScaleUp.Counts.{
  MakesUpTo, creations, creations-append, shortage, scale_up-shortage,
}
use xenonite.Provisioner.ScaleDown.{scale_down}
use xenonite.Provisioner.ScaleDown.Calls.{scale_down-IsRemoving}
use xenonite.Provisioner.Reconcile.{
  reevaluate_interval, update_status, pending_for, pending_pods_for_pool, claims_for_pool,
  reconcile_pool,
}
use xenonite.Provisioner.Reconcile.Exclusive.{
  IsNoCreation, removing-IsNoCreation, no_creation, update_status-IsNeutral, settle,
}

creations_none : (es : List Event) → All (Allowed IsNoCreation) es → creations es ≡ 0
creations_none [] a = refl
creations_none (read_clock _ ∷ es) a = creations_none es a.1
creations_none (called (Call.create_claim _) _ ∷ es) a = absurd a.0
creations_none (called _ _ ∷ es) a = omega (arith, creations_none es a.1)

module _ {ℓ κ} {A : Type ℓ} {B : Type κ} where
  continue_within :
      (r : Result A) (f : A → Exec B) (h : History) (es : List Event) (n : ℕ)
      → creations es ≤ n
      → ((a : A) (h : History) → creations (f a h).1 ≡ 0)
      → creations (continue r f h es).1 ≤ n
  continue_within (ok a) f h es n first rest =
      omega (arith, creations-append es (f a (h ++ es)).1, first, rest a (h ++ es))
  continue_within (err _) f h es n first rest = first

  bind_within :
      (m : Exec A) (f : A → Exec B) (h : History) (n : ℕ)
      → creations (m h).1 ≤ n
      → ((a : A) (h : History) → creations (f a h).1 ≡ 0)
      → creations ((m >>= f) h).1 ≤ n
  unfolding ◌>>=◌
  bind_within m f h n first rest = continue_within (m h).0 f h (m h).1 n first rest

makes_at_most {ℓ} :
    {A : Type ℓ} (n : ℕ) (r : Result A) (es : List Event) → MakesUpTo n (r, es) → creations es ≤ n
makes_at_most n (ok _) es e = omega (arith, e)
makes_at_most n (err _) es e = e

module _ (ext : External) (pool : XenonNodePool) (pending : List Pod)
    (claims : List XenonNodeClaim) where
  -- What follows `scaleUp`.
  abbrev pub rest : Exec CtrlResult
  rest = do
    scale_down ext pool pending claims
    update_status ext pool
    pure (record { requeue_after = reevaluate_interval })

  pub creations-rest : (h : History) → creations (rest h).1 ≡ 0
  creations-rest h = creations_none (rest h).1 (
      (Emits-bind {allowed = IsNoCreation} _ _
          (Emits-widen removing-IsNoCreation _ (scale_down-IsRemoving ext pool pending claims))
          (λ _.
            Emits-bind _ _ (no_creation _ (update_status-IsNeutral ext pool))
              (λ _. Emits-pure _))).at
        h)

  creations-settle :
      (h : History)
      → creations (settle ext pool pending claims h).1 ≤ shortage ext pool pending claims
  creations-settle h =
      bind_within (scale_up ext pool pending claims) (λ _. rest) h _
        (makes_at_most _ (scale_up ext pool pending claims h).0
          (scale_up ext pool pending claims h).1 (scale_up-shortage ext pool pending claims h))
        (λ _. creations-rest)

-- One `Reconcile` of a pool that is not being deleted sends at most as many claims as the pods and
-- the claims that it listed fall short of, under the pool's limit.
pub reconcile_pool-shortage :
    (ext : External) (name : String) (h : History) (pool : XenonNodePool) (pods : List Pod)
    (claims : List XenonNodeClaim)
    → is_zero pool.metadata.deletion_timestamp ≡ true
    → ext.answer h (Call.get_pool name) ≡ ok pool
    → ext.answer (h ++ called (Call.get_pool name) (ok pool) ∷ []) Call.list_pods ≡ ok pods
    → ext.answer
        ((h ++ called (Call.get_pool name) (ok pool) ∷ []) ++ called Call.list_pods (ok pods) ∷ [])
        (Call.list_claims pool.metadata.name)
      ≡ ok claims
    → creations (reconcile_pool ext name h).1
      ≤ shortage ext pool (pending_for pool.metadata.name pods) claims
unfolding reconcile_pool pending_pods_for_pool claims_for_pool ◌>>=◌ attempt request pure
reconcile_pool-shortage ext name h pool pods claims alive found listed owned =
    rw (found, alive, listed, owned)
      (omega (
        arith,
        creations-settle ext pool (pending_for pool.metadata.name pods) claims (
            ((h ++ called (Call.get_pool name) (ok pool) ∷ [])
              ++ called Call.list_pods (ok pods) ∷ [])
            ++ called (Call.list_claims pool.metadata.name) (ok claims) ∷ []),
      ))
