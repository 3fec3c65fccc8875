-- ===== src/Provisioner/Reconcile/Exclusive.antt =====
-- One `Reconcile` of a pool scales up or down.
use xenonite.Base.{String, List, [], ◌∷◌, ◌++◌, ◌⊎◌, inl, inr, arith, Bool-cases, All, All-append}
use xenonite.Api.Core.{Pod, CtrlResult, is_zero}
use xenonite.Api.NodeClaim.{XenonNodeClaim}
use xenonite.Api.NodePool.{XenonNodePool}
use xenonite.Exec.{
  Call, Event, External, History, Result, ok, err, Exec, continue, pure, raise, attempt, request,
  ◌>>=◌, ◌>>◌,
}
use xenonite.Exec.Emits.{
  Allowed, Emits, All-widen, Emits-bind, Emits-pure, Emits-widen, emits_rules,
}
use xenonite.Provisioner.ScaleUp.{scale_up}
use xenonite.Provisioner.ScaleUp.Claims.{IsCreationFor, scale_up-IsCreationFor}
use xenonite.Provisioner.ScaleDown.{scale_down}
use xenonite.Provisioner.ScaleDown.Calls.{
  IsMarking, IsRemoving, scale_down-IsMarking, scale_down-IsRemoving,
}
use xenonite.Provisioner.Reconcile.{
  reevaluate_interval, update_status, pending_pods_for_pool, claims_for_pool, with_pool,
  reconcile_pool,
}

abbrev pub IsNoCreation : Call → Type 0
IsNoCreation (Call.create_claim _) = ⊥
IsNoCreation _ = Unit

abbrev pub IsNoDeletion : Call → Type 0
IsNoDeletion (Call.delete_claim _) = ⊥
IsNoDeletion _ = Unit

-- No call makes a claim, or no call deletes one.
abbrev pub Exclusive : List Event → Type 0
Exclusive es = All (Allowed IsNoCreation) es ⊎ All (Allowed IsNoDeletion) es

abbrev pub IsNeutral : Call → Type 0
IsNeutral c = IsNoCreation c × IsNoDeletion c

pub removing-IsNoCreation : (c : Call) → IsRemoving c → IsNoCreation c
removing-IsNoCreation (Call.create_claim _) a = a
removing-IsNoCreation (Call.get_node _) a = tt
removing-IsNoCreation (Call.list_pods_on _) a = tt
removing-IsNoCreation (Call.patch_claim _ _) a = tt
removing-IsNoCreation (Call.delete_claim _) a = tt
removing-IsNoCreation _ a = absurd a

marking-IsNoDeletion : (c : Call) → IsMarking c → IsNoDeletion c
marking-IsNoDeletion (Call.get_node _) a = tt
marking-IsNoDeletion (Call.list_pods_on _) a = tt
marking-IsNoDeletion (Call.patch_claim _ _) a = tt
marking-IsNoDeletion _ a = absurd a

pub creation-IsNoDeletion :
    (ext : External) (pool : XenonNodePool) (c : Call) → IsCreationFor ext pool c → IsNoDeletion c
creation-IsNoDeletion ext pool (Call.create_claim _) a = tt
creation-IsNoDeletion ext pool _ a = absurd a

module _ {ℓ} {A : Type ℓ} where
  pub no_creation : (m : Exec A) → Emits IsNeutral m → Emits IsNoCreation m
  no_creation m e = Emits-widen (λ c a. a.0) m e

  pub no_deletion : (m : Exec A) → Emits IsNeutral m → Emits IsNoDeletion m
  no_deletion m e = Emits-widen (λ c a. a.1) m e

-- After calls that do neither.
Exclusive-append :
    (es fs : List Event) → All (Allowed IsNeutral) es → Exclusive fs → Exclusive (es ++ fs)
Exclusive-append es fs n (inl q) =
    inl (All-append (Allowed IsNoCreation) es fs (All-widen (λ c a. a.0) es n) q)
Exclusive-append es fs n (inr q) =
    inr (All-append (Allowed IsNoDeletion) es fs (All-widen (λ c a. a.1) es n) q)

module _ {ℓ κ} {A : Type ℓ} {B : Type κ} where
  Exclusive-continue :
      (r : Result A) (f : A → Exec B) (h : History) (es : List Event)
      → All (Allowed IsNeutral) es
      → ((a : A) (h : History) → Exclusive (f a h).1)
      → Exclusive (continue r f h es).1
  Exclusive-continue (ok a) f h es n q = Exclusive-append es (f a (h ++ es)).1 n (q a (h ++ es))
  Exclusive-continue (err e) f h es n q = inl (All-widen (λ c a. a.0) es n)

  Exclusive-bind :
      (m : Exec A) (f : A → Exec B) (h : History)
      → Emits IsNeutral m
      → ((a : A) (h : History) → Exclusive (f a h).1)
      → Exclusive ((m >>= f) h).1
  unfolding ◌>>=◌
  Exclusive-bind m f h e q = Exclusive-continue (m h).0 f h (m h).1 (e.at h) q

neutral : Unit {0} × Unit {0}
neutral = (tt, tt)

module _ (ext : External) where
  pub update_status-IsNeutral : (pool : XenonNodePool) → Emits IsNeutral (update_status ext pool)
  unfolding update_status
  update_status-IsNeutral pool = search (emits_rules, neutral)

  pub pending_pods-IsNeutral : (name : String) → Emits IsNeutral (pending_pods_for_pool ext name)
  unfolding pending_pods_for_pool
  pending_pods-IsNeutral name = search (emits_rules, neutral)

  pub claims-IsNeutral : (name : String) → Emits IsNeutral (claims_for_pool ext name)
  unfolding claims_for_pool request
  claims-IsNeutral name = search (emits_rules, neutral)

  abbrev pub settle : XenonNodePool → List Pod → List XenonNodeClaim → Exec CtrlResult
  settle pool pending claims = do
    scale_up ext pool pending claims
    scale_down ext pool pending claims
    update_status ext pool
    pure (record { requeue_after = reevaluate_interval })

  settle-Exclusive :
      (pool : XenonNodePool) (pending : List Pod) (claims : List XenonNodeClaim) (h : History)
      → Exclusive (settle pool pending claims h).1
  unfolding scale_up
  settle-Exclusive pool [] claims h = inl (
      (Emits-bind {allowed = IsNoCreation} (pure tt) _ (Emits-pure tt) (λ _.
          Emits-bind _ _
            (Emits-widen removing-IsNoCreation _ (scale_down-IsRemoving ext pool [] claims))
            (λ _.
              Emits-bind _ _ (no_creation _ (update_status-IsNeutral pool))
                (λ _. Emits-pure _)))).at
        h)
  settle-Exclusive pool (p ∷ pending) claims h = inr (
      (Emits-bind {allowed = IsNoDeletion} _ _
          (Emits-widen (creation-IsNoDeletion ext pool) _
            (scale_up-IsCreationFor ext pool (p ∷ pending) claims))
          (λ _.
            Emits-bind _ _
              (Emits-widen marking-IsNoDeletion _ (scale_down-IsMarking ext pool p pending claims))
              (λ _.
                Emits-bind _ _ (no_deletion _ (update_status-IsNeutral pool))
                  (λ _. Emits-pure _)))).at
        h)

  with_pool-Exclusive :
      (found : Result XenonNodePool) (h : History) → Exclusive (with_pool ext found h).1
  unfolding with_pool pure raise
  with_pool-Exclusive (err e) h = ground arith
  with_pool-Exclusive (ok pool) h = elim (Bool-cases (is_zero pool.metadata.deletion_timestamp)) [
    | inl alive ↦ rw alive (
        Exclusive-bind (pending_pods_for_pool ext pool.metadata.name) _ h
          (pending_pods-IsNeutral pool.metadata.name)
          (λ pending h.
            Exclusive-bind (claims_for_pool ext pool.metadata.name) (settle pool pending) h
              (claims-IsNeutral pool.metadata.name) (settle-Exclusive pool pending)))
    | inr gone ↦ rw gone (inl tt)
  ]

-- One `Reconcile` of a pool never both makes and deletes claims.
pub reconcile_pool-Exclusive :
    (ext : External) (name : String) (h : History) → Exclusive (reconcile_pool ext name h).1
unfolding reconcile_pool
reconcile_pool-Exclusive ext name h =
    Exclusive-bind (attempt (request ext (Call.get_pool name))) (with_pool ext) h
      (search (emits_rules, neutral)) (with_pool-Exclusive ext)
