-- ===== src/Cluster/Limit.antt =====
-- One `Reconcile` of a pool and the number of claims that any pool has.
use xenonite.Base.{
  ap, ℕ, suc, ◌-◌, ◌≤◌, ◌≡◌, ◌≢◌, sym, ◌∙◌, String, ◌==◌, eq_iff, Option-cases, List, ◌++◌, length,
  All, inl, inr, Bool-cases, arith,
}
use xenonite.Base.Int.{pos}
use xenonite.Api.Core.{Pod, is_zero}
use xenonite.Api.NodeClaim.{XenonNodeClaim}
use xenonite.Api.NodePool.{XenonNodePool}
use xenonite.Exec.{
  Call, Event, called, read_clock, Result, ok, err, History, External, Exec, request, ◌>>=◌,
}
use xenonite.Exec.Emits.{Allowed, Emits, Emits-bind, Emits-pure, Emits-widen}
use xenonite.Exec.Failures.{Result-cases}
use xenonite.Exec.Triple.{
  Triple, Triple-bind, Triple-pure, Triple-raise, Triple-attempt, Attempted, Triple-keep,
  Triple-weaken,
}
use xenonite.Provisioner.ScaleUp.{pool_node_limit, in_flight, scale_up}
use xenonite.Provisioner.ScaleUp.Counts.{room, shortage, MakesUpTo, scale_up-shortage}
use xenonite.Provisioner.ScaleUp.Claims.{
  IsCreationFor, SetsOwnerOnly, made-label, scale_up-IsCreationFor,
}
use xenonite.Provisioner.ScaleDown.Calls.{scale_down-IsRemoving}
use xenonite.Provisioner.Reconcile.{
  pending_pods_for_pool, claims_for_pool, with_pool, reconcile_pool,
}
use xenonite.Provisioner.Reconcile.Exclusive.{
  IsNoCreation, removing-IsNoCreation, no_creation, update_status-IsNeutral, pending_pods-IsNeutral,
  settle,
}
use xenonite.Cluster.Census.{Adds, IsCensus, HasLimit, census-keeps, census-creations}

room_within : (l want existing : ℕ) → room (pos (suc l)) want existing ≤ suc l - existing
room_within l want existing = ground arith

shortage_within :
    (ext : External) (p : XenonNodePool) (l : ℕ) (pending : List Pod) (claims : List XenonNodeClaim)
    → pool_node_limit p ≡ pos (suc l)
    → shortage ext p pending claims ≤ suc l - length claims
shortage_within ext p l pending claims e =
    rw e (room_within l (length pending - in_flight ext claims) (length claims))

no_creation-quiet : (pool : String) (e : Event) → Allowed IsNoCreation e → Adds pool e → ⊥
no_creation-quiet pool (called (Call.create_claim _) _) q a = q
no_creation-quiet pool (called _ _) q a = a
no_creation-quiet pool (read_clock _) q a = a

module _ (ext : External) (owner : SetsOwnerOnly ext) (pool : String) (l : ℕ)
    (limit : HasLimit ext pool (suc l)) (census : History → ℕ)
    (counted : IsCensus ext pool census) where
  abbrev pub Within : History → Type 0
  Within h = census h ≤ suc l

  pub quiet-Within :
      (h : History) (es : List Event) → All (Allowed IsNoCreation) es → Within h → Within (h ++ es)
  quiet-Within h es q w =
      omega (
        arith,
        w,
        census-keeps ext pool census counted IsNoCreation (no_creation-quiet pool) h es q,
      )

  -- Claims made for another pool.
  foreign_creation :
      (p : XenonNodePool)
      → p.metadata.name ≢ pool
      → (e : Event) → Allowed (IsCreationFor ext p) e
      → Adds pool e
      → ⊥
  foreign_creation p ne (called (Call.create_claim c) r) made a =
      ne (sym (made-label ext owner p c made) ∙ a)
  foreign_creation p ne (called _ _) made a = a
  foreign_creation p ne (read_clock _) made a = a

  -- The claims that were listed are all that the pool has.
  record Listed (p : XenonNodePool) (claims : List XenonNodeClaim) (h : History) : Type 0 where
    within : Within h
    bounded : p.metadata.name ≡ pool → pool_node_limit p ≡ pos (suc l)
    whole : p.metadata.name ≡ pool → census h ≤ length claims

  abbrev Found : XenonNodePool → Result (List XenonNodeClaim) → History → Type 0
  Found p (ok claims) h = Listed p claims h
  Found p (err e) h = Within h

  made-Within :
      (p : XenonNodePool) (pending : List Pod) (claims : List XenonNodeClaim) (h : History)
      (r : Result (Unit {0})) (es : List Event)
      → MakesUpTo (shortage ext p pending claims) (r, es)
      → Listed p claims h
      → p.metadata.name ≡ pool
      → Within (h ++ es)
  made-Within p pending claims h (ok _) es made known same =
      let sum = census-creations ext pool census counted h es in
      let low = shortage_within ext p l pending claims (known.bounded same) in
      let whole = known.whole same in
      let within = known.within in omega (arith, sum, low, whole, within, made)
  made-Within p pending claims h (err _) es made known same =
      let sum = census-creations ext pool census counted h es in
      let low = shortage_within ext p l pending claims (known.bounded same) in
      let whole = known.whole same in
      let within = known.within in omega (arith, sum, low, whole, within, made)

  scale_up-Within :
      (p : XenonNodePool) (pending : List Pod) (claims : List XenonNodeClaim)
      → Triple (Listed p claims) (scale_up ext p pending claims) (λ _. Within)
  scale_up-Within p pending claims = record {
    at = λ h known. elim (Bool-cases (p.metadata.name == pool)) [
      | inl t ↦
          made-Within p pending claims h (scale_up ext p pending claims h).0
            (scale_up ext p pending claims h).1 (scale_up-shortage ext p pending claims h) known
            ((eq_iff p.metadata.name pool).0 t)
      | inr f ↦
          (let less =
              census-keeps ext pool census counted (IsCreationFor ext p)
                (foreign_creation p (λ e. let t = (eq_iff p.metadata.name pool).1 e in cc)) h _
                ((scale_up-IsCreationFor ext p pending claims).at h) in
            let within = known.within in omega (arith, less, within))
    ];
  }

  no_creation-Within :
      {A : Type 0} (m : Exec A) → Emits IsNoCreation m → Triple Within m (λ _. Within)
  no_creation-Within m e =
      Triple-weaken m (Triple-keep IsNoCreation m e quiet-Within) (λ _ _ kept. kept.0)

  settle-Within :
      (p : XenonNodePool) (pending : List Pod) (claims : List XenonNodeClaim)
      → Triple (Listed p claims) (settle ext p pending claims) (λ _. Within)
  settle-Within p pending claims =
      Triple-bind _ _ (λ _. Within) (scale_up-Within p pending claims)
        (λ _. no_creation-Within _ (
          Emits-bind _ _
            (Emits-widen removing-IsNoCreation _ (scale_down-IsRemoving ext p pending claims))
            (λ _.
              Emits-bind _ _ (no_creation _ (update_status-IsNeutral ext p)) (λ _. Emits-pure _))))
        (λ _ _ w. w)

  claims_for_pool-Found :
      (p : XenonNodePool)
      → (p.metadata.name ≡ pool → pool_node_limit p ≡ pos (suc l))
      → Triple Within (claims_for_pool ext p.metadata.name) (Found p)
  unfolding claims_for_pool request
  claims_for_pool-Found p bounded = record {
    at = λ h w. elim (Result-cases (ext.answer h (Call.list_claims p.metadata.name))) [
      | inr (e, failed) ↦ rw failed (quiet-Within h _ (tt, tt) w)
      | inl (claims, listed) ↦ rw listed (record {
        within = quiet-Within h _ (tt, tt) w;
        bounded = bounded;
        whole = λ same.
            let some_time =
              counted.keeps h (called (Call.list_claims p.metadata.name) (ok claims)) (λ a. a) in
            let known =
              counted.lists h claims
                (ap (λ n. ext.answer h (Call.list_claims n)) (sym same) ∙ listed) in
            omega (arith, some_time, known);
      })
    ];
  }

  -- What was read is a pool with the limit, if it is the pool.
  abbrev Read : Result XenonNodePool → History → Type 0
  Read (ok p) h = Within h × (p.metadata.name ≡ pool → pool_node_limit p ≡ pos (suc l))
  Read (err e) h = Within h

  get_pool-Read : (name : String) → Triple Within (request ext (Call.get_pool name)) Read
  unfolding request
  get_pool-Read name = record {
    at = λ h w. elim (Result-cases (ext.answer h (Call.get_pool name))) [
      | inr (e, failed) ↦ rw failed (quiet-Within h _ (tt, tt) w)
      | inl (p, found) ↦ rw found (quiet-Within h _ (tt, tt) w, limit h name p found)
    ];
  }

  with_pool-Within :
      (found : Result XenonNodePool) → Triple (Read found) (with_pool ext found) (λ _. Within)
  unfolding with_pool
  with_pool-Within (err e) = elim (Option-cases (ext.ignore_not_found e)) [
    | inl gone ↦ rw (gone, with_pool) (Triple-pure _ (λ h w. w))
    | inr (f, failed) ↦ rw (failed, with_pool) (Triple-raise f (λ h w. w))
  ]
  with_pool-Within (ok p) = elim (Bool-cases (is_zero p.metadata.deletion_timestamp)) [
    | inr gone ↦ rw (gone, with_pool) (Triple-pure _ (λ h r. r.0))
    | inl alive ↦ rw (alive, with_pool) (record { at = λ h r. (run r.1).at h (r.0) })
  ]
    where
      run :
          (p.metadata.name ≡ pool → pool_node_limit p ≡ pos (suc l))
          → Triple Within
              (pending_pods_for_pool ext p.metadata.name >>= λ pending.
                claims_for_pool ext p.metadata.name >>= λ claims. settle ext p pending claims)
              (λ _. Within)
      run bounded =
          Triple-bind _ _ (λ _. Within)
            (no_creation-Within _ (no_creation _ (pending_pods-IsNeutral ext p.metadata.name)))
            (λ pending.
              Triple-bind _ _ (Found p) (claims_for_pool-Found p bounded)
                (λ claims. settle-Within p pending claims) (λ _ _ w. w))
            (λ _ _ w. w)

  pub reconcile_pool-Within :
      (name : String) → Triple Within (reconcile_pool ext name) (λ _. Within)
  unfolding reconcile_pool
  reconcile_pool-Within name =
      Triple-bind _ _ (Attempted Read) (Triple-attempt Read _ (get_pool-Read name))
        (λ found. with_pool-Within found) (λ _ _ no. absurd no)
