-- ===== src/Provisioner/Reconcile/Bounded.antt =====
-- One Reconcile of a pool comes to an end: a bound on its calls.
use xenonite.Base.{
  ℕ, zero, suc, ◌+◌, ◌*◌, ◌-◌, ◌≤◌, ◌≡◌, not, String, List, [], ◌∷◌, length, arith, inl, inr,
  Option-cases,
}
use xenonite.Base.Int.{ℤ, pos, negsuc, pos_part}
use xenonite.Api.Core.{Pod, CtrlResult, is_zero}
use xenonite.Api.NodeClaim.{XenonNodeClaim}
use xenonite.Api.NodePool.{XenonNodePool}
use xenonite.Exec.{Result, ok, err, External, History, Call, ◌>>=◌, request, pure}
use xenonite.Exec.Bounded.{
  Bounded, Bounded-more, Bounded-raise, Bounded-pure, Bounded-if, Bounded-attempt, Bounded-bind,
  Bounded-bind_from, Bounded-request,
}
use xenonite.Exec.Failures.{Result-cases}
use xenonite.Provisioner.ScaleUp.{
  pool_node_limit, in_flight, claims_needed, create_claim, create_claims, scale_up,
}
use xenonite.Provisioner.ScaleUp.Counts.{room, pos_part-claims_needed}
use xenonite.Provisioner.ScaleDown.{scale_down}
use xenonite.Provisioner.ScaleDown.Bounded.{scale_down-Bounded}
use xenonite.Provisioner.Reconcile.{
  pending_for, update_status, pending_pods_for_pool, claims_for_pool, with_pool, reconcile_pool,
}

length-pending_for :
    (name : String) (pods : List Pod) → length (pending_for name pods) ≤ length pods
unfolding pending_for
length-pending_for name [] = omega arith
length-pending_for name (p ∷ pods) = ground (arith, length-pending_for name pods)

room_within : (limit : ℤ) (want existing : ℕ) → room limit want existing ≤ want
room_within (pos zero) want existing = omega arith
room_within (pos (suc l)) want existing = ground arith
room_within (negsuc l) want existing = omega arith

module _ (ext : External) where
  create_claim-Bounded : (pool : XenonNodePool) → Bounded 1 0 (create_claim ext pool)
  unfolding create_claim ◌>>=◌ request
  create_claim-Bounded pool = record { at = λ h. ground arith }

  create_claims-Bounded : (pool : XenonNodePool) (n : ℕ) → Bounded n 0 (create_claims ext pool n)
  unfolding create_claims
  create_claims-Bounded pool zero = Bounded-pure tt
  create_claims-Bounded pool (suc n) =
      Bounded-more (suc n) 0 _ (omega arith) (omega arith)
        (Bounded-bind _ _ one (λ _. create_claims-Bounded pool n))
    where
      one : Bounded 1 0 (create_claim ext pool)
      one = create_claim-Bounded pool

  scale_up-Bounded :
      (pool : XenonNodePool) (pending : List Pod) (claims : List XenonNodeClaim)
      → Bounded (length pending) 0 (scale_up ext pool pending claims)
  unfolding scale_up
  scale_up-Bounded pool [] claims = Bounded-pure tt
  scale_up-Bounded pool (p ∷ pending) claims =
      Bounded-more _ _ _ few (omega arith) (create_claims-Bounded pool _)
    where
      few : pos_part (claims_needed ext pool (p ∷ pending) claims) ≤ length (p ∷ pending)
      few = omega (
        arith,
        pos_part-claims_needed ext pool (p ∷ pending) claims,
        room_within (pool_node_limit pool) (length (p ∷ pending) - in_flight ext claims)
            (length claims),
      )

  update_status-Bounded : (pool : XenonNodePool) → Bounded 1 0 (update_status ext pool)
  unfolding update_status ◌>>=◌ request
  update_status-Bounded pool = record { at = λ h. ground arith }

  pending_pods-Bounded : (name : String) → Bounded 1 0 (pending_pods_for_pool ext name)
  unfolding pending_pods_for_pool ◌>>=◌ request
  pending_pods-Bounded name = record { at = λ h. ground arith }

  requested :
      (h : History) (pool : String) (cs : List XenonNodeClaim)
      → (request ext (Call.list_claims pool) h).0 ≡ ok cs
      → ext.answer h (Call.list_claims pool) ≡ ok cs
  unfolding request
  requested h pool cs e = e

  module _ (pods_most claims_most : ℕ) where
    -- How much the lists that are found may hold.
    pub record ListsWithin : Type 0 where
      pub pods :
          (h : History) (ps : List Pod)
          → ext.answer h Call.list_pods ≡ ok ps
          → length ps ≤ pods_most
      pub claims :
          (h : History) (pool : String) (cs : List XenonNodeClaim)
          → ext.answer h (Call.list_claims pool) ≡ ok cs
          → length cs ≤ claims_most

    module _ (within : ListsWithin) where
      pending_pods-within :
          (name : String) (h : History) (ps : List Pod)
          → (pending_pods_for_pool ext name h).0 ≡ ok ps
          → length ps ≤ pods_most
      unfolding pending_pods_for_pool ◌>>=◌ request
      pending_pods-within name h ps e = elim (Result-cases (ext.answer h Call.list_pods)) [
        | inl (all, q) ↦
            let same : pending_for name all ≡ ps = (let e' = rw q at e in cc) in
            let few = within.pods h all q in
            rw (← same) (omega (arith, few, length-pending_for name all))
        | inr (er, q) ↦ let e' = rw q at e in cc
      ]

      scaled-Bounded :
          (pool : XenonNodePool) (pending : List Pod) (claims : List XenonNodeClaim)
          (t : CtrlResult)
          → length pending ≤ pods_most
          → length claims ≤ claims_most
          → Bounded (1 + pods_most + claims_most * 3) 0 (
              scale_up ext pool pending claims >>= λ _.
              scale_down ext pool pending claims >>= λ _. update_status ext pool >>= λ _. pure t)
      scaled-Bounded pool pending claims t few_pods few_claims =
          Bounded-more _ _ _ (omega (arith, few_pods, few_claims)) (omega arith) (
            Bounded-bind _ _ (scale_up-Bounded pool pending claims) (λ _.
              Bounded-bind _ _ (scale_down-Bounded ext pool pending claims)
                (λ _. Bounded-bind _ _ (update_status-Bounded pool) (λ _. Bounded-pure t))))

      with_pool-Bounded :
          (found : Result XenonNodePool)
          → Bounded (3 + pods_most + claims_most * 3) 0 (with_pool ext found)
      unfolding with_pool claims_for_pool
      with_pool-Bounded (err e) = elim (Option-cases (ext.ignore_not_found e)) [
        | inl nil ↦
            rw (nil, with_pool) (Bounded-more _ _ _ (omega arith) (omega arith) (Bounded-pure _))
        | inr (er, kept) ↦
            rw (kept, with_pool) (Bounded-more _ _ _ (omega arith) (omega arith) (Bounded-raise er))
      ]
      with_pool-Bounded (ok pool) =
          Bounded-if (not (is_zero pool.metadata.deletion_timestamp)) _ _
            (Bounded-more _ _ _ (omega arith) (omega arith) (Bounded-pure _))
            (Bounded-more _ _ _ (omega arith) (omega arith) (
              Bounded-bind_from _ _ (pending_pods-Bounded pool.metadata.name) (λ pending h e.
                Bounded-bind_from _ _ (Bounded-request ext (Call.list_claims pool.metadata.name))
                  (λ claims g q.
                    scaled-Bounded pool pending claims _
                      (pending_pods-within pool.metadata.name h pending e)
                      (within.claims g pool.metadata.name claims
                        (requested g pool.metadata.name claims q))))))

      -- Whatever is answered, one Reconcile of a pool ends after at most four calls, one for each
      -- pod in the cluster and three for each claim of the pool. `pods_most` and `claims_most` are
      -- as many as any list of pods or of a pool's claims holds.
      pub reconcile_pool-Bounded :
          (name : String) → Bounded (4 + pods_most + claims_most * 3) 0 (reconcile_pool ext name)
      unfolding reconcile_pool
      reconcile_pool-Bounded name = Bounded-more _ _ _ (omega arith) (omega arith) (
          Bounded-bind _ _ (Bounded-attempt _ (Bounded-request ext (Call.get_pool name)))
            with_pool-Bounded)
