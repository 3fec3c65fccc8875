-- ===== src/Provisioner/Reconcile/Serves.antt =====
-- What a `Reconcile` of a pool that succeeds has done, and when it comes back.
use xenonite.Base.{ℕ, String, List, [], ◌∷◌, ◌++◌, ◌≡◌, true, arith}
use xenonite.Api.Core.{Pod, CtrlResult, is_zero}
use xenonite.Api.NodeClaim.{XenonNodeClaim}
use xenonite.Api.NodePool.{XenonNodePool}
use xenonite.Exec.{
  Call, Event, called, External, History, Result, ok, err, pure, attempt, request, ◌>>=◌,
}
use xenonite.Exec.Failures.{ok-bind}
use xenonite.Provisioner.ScaleUp.{scale_up}
use xenonite.Provisioner.ScaleUp.Counts.{
  MakesUpTo, creations, creations-append, shortage, scale_up-shortage,
}
use xenonite.Provisioner.ScaleDown.{scale_down}
use xenonite.Provisioner.Reconcile.{
  reevaluate_interval, update_status, pending_for, pending_pods_for_pool, claims_for_pool,
  reconcile_pool,
}
use xenonite.Provisioner.Reconcile.Exclusive.{settle}
use xenonite.Provisioner.Reconcile.Limit.{rest, creations-rest}

-- The number of claims that were sent, and a return after the interval.
abbrev pub Serves : ℕ → CtrlResult → List Event → Type 0
Serves n b es = (creations es ≡ n) × (b.requeue_after ≡ reevaluate_interval)

makes_exactly {ℓ} :
    {A : Type ℓ} (n : ℕ) (r : Result A) (es : List Event) (a : A)
    → r ≡ ok a
    → MakesUpTo n (r, es)
    → creations es ≡ n
makes_exactly n (ok _) es a e m = m
makes_exactly n (err _) es a e m = absurd (ground arith)

returned_later :
    (b : CtrlResult) (g : History)
    → (pure {A = CtrlResult} (record { requeue_after = reevaluate_interval }) g).0 ≡ ok b
    → b.requeue_after ≡ reevaluate_interval
unfolding pure
returned_later b g e = ground arith

module _ (ext : External) (pool : XenonNodePool) (pending : List Pod)
    (claims : List XenonNodeClaim) where
  rest-interval :
      (h : History) (b : CtrlResult)
      → (rest ext pool pending claims h).0 ≡ ok b
      → b.requeue_after ≡ reevaluate_interval
  rest-interval h b q =
      let (_, _, q', _) = ok-bind (scale_down ext pool pending claims) _ h b q in
      let (_, _, q'', _) = ok-bind (update_status ext pool) _ _ b q' in returned_later b _ q''

  settle-Serves :
      (h : History) (b : CtrlResult)
      → (settle ext pool pending claims h).0 ≡ ok b
      → Serves (shortage ext pool pending claims) b (settle ext pool pending claims h).1
  settle-Serves h b q =
      let (_, made, q', all) =
        ok-bind (scale_up ext pool pending claims) (λ _. rest ext pool pending claims) h b q in
      let exactly =
        makes_exactly _ (scale_up ext pool pending claims h).0
          (scale_up ext pool pending claims h).1 _ made
          (scale_up-shortage ext pool pending claims h) in
      (
        rw all (
            omega (
              arith,
              creations-append (scale_up ext pool pending claims h).1
                  (rest ext pool pending claims (h ++ (scale_up ext pool pending claims h).1)).1,
              exactly,
              creations-rest ext pool pending claims (h ++ (scale_up ext pool pending claims h).1),
            )),
        rest-interval _ b q',
      )

-- A `Reconcile` of a pool that is not being deleted, which returns no error, has sent exactly as
-- many claims as the pods and the claims that it listed fall short of, under the pool's limit, and
-- asks to be run again after 30 seconds.
pub reconcile_pool-Serves :
    (ext : External) (name : String) (h : History) (pool : XenonNodePool) (pods : List Pod)
    (claims : List XenonNodeClaim) (b : CtrlResult)
    → is_zero pool.metadata.deletion_timestamp ≡ true
    → ext.answer h (Call.get_pool name) ≡ ok pool
    → ext.answer (h ++ called (Call.get_pool name) (ok pool) ∷ []) Call.list_pods ≡ ok pods
    → ext.answer
        ((h ++ called (Call.get_pool name) (ok pool) ∷ []) ++ called Call.list_pods (ok pods) ∷ [])
        (Call.list_claims pool.metadata.name)
      ≡ ok claims
    → (reconcile_pool ext name h).0 ≡ ok b
    → Serves
        (shortage ext pool (pending_for pool.metadata.name pods) claims)
        b
        (reconcile_pool ext name h).1
unfolding reconcile_pool pending_pods_for_pool claims_for_pool ◌>>=◌ attempt request pure
reconcile_pool-Serves ext name h pool pods claims b alive found listed owned q =
    let (made, again) =
      settle-Serves ext pool (pending_for pool.metadata.name pods) claims _ b
        (rw (found, alive, listed, owned) at q) in
    rw (found, alive, listed, owned) (omega (arith, made), again)
