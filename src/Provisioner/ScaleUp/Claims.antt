-- ===== src/Provisioner/ScaleUp/Claims.antt =====
-- Which claims `scaleUp` makes.
use xenonite.Base.{
  ap, All, ◌++◌, zero, suc, ◌≡◌, ◌≢◌, refl, ◌==◌, eq_iff, Bool-cases, inl, inr, List, [], ◌∷◌, ℕ,
}
use xenonite.Base.Dict.{lookup, entry}
use xenonite.Base.Int.{pos_part}
use xenonite.Api.Core.{Pod}
use xenonite.Api.Labels.{label_node_pool}
use xenonite.Api.NodeClaim.{XenonNodeClaim}
use xenonite.Api.NodePool.{XenonNodePool}
use xenonite.Exec.{History, continue, pure, request, ◌>>=◌, Call, External, ok, err, Result, lift}
use xenonite.Exec.Emits.{Allowed, Emits, Emits-bind, emits_rules, Emits-pure, Emits-request}
use xenonite.Provisioner.ScaleUp.{new_claim, claims_needed, create_claim, create_claims, scale_up}
use xenonite.Provisioner.Watches.{Object, pool_for_claim}

-- The claim made for the pool, with the owner reference that controllerutil sets on it.
abbrev pub IsCreationFor : External → XenonNodePool → Call → Type 0
IsCreationFor ext pool (Call.create_claim c) =
    ext.set_controller_reference pool (new_claim pool) ≡ ok c
IsCreationFor ext pool _ = ⊥

module _ (ext : External) (pool : XenonNodePool) where
  after_owner :
      (r : Result XenonNodeClaim)
      → ext.set_controller_reference pool (new_claim pool) ≡ r
      → (h : History)
      → All
          (Allowed (IsCreationFor ext pool))
          (continue r
            (λ claim. request ext (Call.create_claim claim) >>= λ _. pure (tt {0}))
            h
            []).1
  after_owner (ok c) e h =
      (Emits-bind (request ext (Call.create_claim c)) (λ _. pure (tt {0}))
          (Emits-request ext (Call.create_claim c) e) (λ _. Emits-pure (tt {0}))).at
        (h ++ [])
  after_owner (err e) _ h = tt

  create_claim-IsCreationFor : Emits (IsCreationFor ext pool) (create_claim ext pool)
  unfolding create_claim ◌>>=◌ lift
  create_claim-IsCreationFor = record {
    at = λ h. after_owner (ext.set_controller_reference pool (new_claim pool)) refl h;
  }

  create_claims-IsCreationFor : (n : ℕ) → Emits (IsCreationFor ext pool) (create_claims ext pool n)
  unfolding create_claims
  create_claims-IsCreationFor zero = search emits_rules
  create_claims-IsCreationFor (suc n) =
      Emits-bind (create_claim ext pool) (λ _. create_claims ext pool n) create_claim-IsCreationFor
        (λ _. create_claims-IsCreationFor n)

-- `scaleUp` makes no call but for new claims of the pool.
pub scale_up-IsCreationFor :
    (ext : External) (pool : XenonNodePool) (pending : List Pod) (claims : List XenonNodeClaim)
    → Emits (IsCreationFor ext pool) (scale_up ext pool pending claims)
unfolding scale_up
scale_up-IsCreationFor ext pool [] claims = search emits_rules
scale_up-IsCreationFor ext pool (p ∷ pending) claims =
    create_claims-IsCreationFor ext pool (pos_part (claims_needed ext pool (p ∷ pending) claims))

-- controllerutil.SetControllerReference changes the owner references of the object, at most.
abbrev pub SetsOwnerOnly : External → Type 0
SetsOwnerOnly ext =
    (pool : XenonNodePool) (claim owned : XenonNodeClaim)
    → ext.set_controller_reference pool claim ≡ ok owned
    → owned ≡ record claim {
      metadata = record claim.metadata { owner_references = owned.metadata.owner_references };
    }

pub made-label :
    (ext : External)
    → SetsOwnerOnly ext
    → (pool : XenonNodePool) (c : XenonNodeClaim) → IsCreationFor ext pool (Call.create_claim c)
    → entry label_node_pool c.metadata.labels ≡ pool.metadata.name
unfolding new_claim lookup
made-label ext owner pool c made =
    ap (λ c. entry label_node_pool c.metadata.labels) (owner pool (new_claim pool) c made)

-- Every claim that is made for a pool with a name enqueues just this pool when it changes, and
-- the label that `claimsForPool` lists by holds the pool's name.
pub made-pool_for_claim :
    (ext : External)
    → SetsOwnerOnly ext
    → (pool : XenonNodePool) (c : XenonNodeClaim) → pool.metadata.name ≢ ""
    → IsCreationFor ext pool (Call.create_claim c)
    → (pool_for_claim (Object.claim c) ≡ pool.metadata.name ∷ [])
      × (entry label_node_pool c.metadata.labels ≡ pool.metadata.name)
unfolding pool_for_claim new_claim
made-pool_for_claim ext owner pool c named made =
    let same = owner pool (new_claim pool) c made in
    let ref = ap (λ c. c.spec.node_pool_ref) same in
    (
      rw ref (elim (Bool-cases (pool.metadata.name == "")) [
        | inl t ↦ absurd (named ((eq_iff pool.metadata.name "").0 t))
        | inr f ↦ rw f
      ]),
      made-label ext owner pool c made,
    )
