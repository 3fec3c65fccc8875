-- ===== src/Cluster/Census.antt =====
-- How many claims of a pool the API server stores.
use xenonite.Base.{
  ℕ, suc, ◌+◌, ◌≤◌, ◌≡◌, subst, append_assoc, append-nil, String, List, [], ◌∷◌, ◌++◌, length, All,
  arith,
}
use xenonite.Base.Int.{pos}
use xenonite.Base.Dict.{entry}
use xenonite.Api.Labels.{label_node_pool}
use xenonite.Api.NodeClaim.{XenonNodeClaim}
use xenonite.Api.NodePool.{XenonNodePool}
use xenonite.Exec.{Call, Event, called, read_clock, ok, History, External}
use xenonite.Exec.Emits.{Allowed}
use xenonite.Provisioner.ScaleUp.{pool_node_limit}
use xenonite.Provisioner.ScaleUp.Counts.{creations}

-- The event sends a claim with the pool's label.
abbrev pub Adds : String → Event → Type 0
Adds pool (called (Call.create_claim c) _) = entry label_node_pool c.metadata.labels ≡ pool
Adds pool _ = ⊥

-- The claims of the pool after each history: a list of them is not behind, and only the creation of
-- one adds one.
pub record IsCensus (ext : External) (pool : String) (census : History → ℕ) : Type 0 where
  pub lists :
      (h : History) (claims : List XenonNodeClaim)
      → ext.answer h (Call.list_claims pool) ≡ ok claims
      → census h ≤ length claims
  pub adds : (h : History) (e : Event) → census (h ++ e ∷ []) ≤ suc (census h)
  pub keeps : (h : History) (e : Event) → (Adds pool e → ⊥) → census (h ++ e ∷ []) ≤ census h

-- Whoever reads the pool finds this limit.
abbrev pub HasLimit : External → String → ℕ → Type 0
HasLimit ext pool limit =
    (h : History) (name : String) (p : XenonNodePool)
    → ext.answer h (Call.get_pool name) ≡ ok p
    → p.metadata.name ≡ pool
    → pool_node_limit p ≡ pos limit

module _ (ext : External) (pool : String) (census : History → ℕ)
    (counted : IsCensus ext pool census) where
  -- Events that add nothing.
  pub census-keeps :
      (allowed : Call → Type 0)
      → ((e : Event) → Allowed allowed e → Adds pool e → ⊥)
      → (h : History) (es : List Event) → All (Allowed allowed) es
      → census (h ++ es) ≤ census h
  census-keeps allowed quiet h [] q = rw (append-nil h) (omega arith)
  census-keeps allowed quiet h (e ∷ es) q =
      let rest : census (h ++ e ∷ es) ≤ census (h ++ e ∷ []) =
        subst (λ g. census g ≤ census (h ++ e ∷ [])) (append_assoc h (e ∷ []) es)
          (census-keeps allowed quiet (h ++ e ∷ []) es q.1) in
      omega (arith, rest, counted.keeps h e (quiet e q.0))

  -- No more are added than sent.
  pub census-creations :
      (h : History) (es : List Event) → census (h ++ es) ≤ census h + creations es
  census-creations h [] = rw (append-nil h) (omega arith)
  census-creations h (e ∷ es) =
      let rest : census (h ++ e ∷ es) ≤ census (h ++ e ∷ []) + creations es =
        subst (λ g. census g ≤ census (h ++ e ∷ []) + creations es) (append_assoc h (e ∷ []) es)
          (census-creations (h ++ e ∷ []) es) in
      step e rest
    where
      step :
          (e : Event)
          → census (h ++ e ∷ es) ≤ census (h ++ e ∷ []) + creations es
          → census (h ++ e ∷ es) ≤ census h + creations (e ∷ es)
      step (read_clock t) rest = omega (arith, rest, counted.keeps h (read_clock t) (λ n. n))
      step (called (Call.create_claim c) r) rest =
          omega (arith, rest, counted.adds h (called (Call.create_claim c) r))
      step (called c r) rest = omega (arith, rest, counted.keeps h (called c r) (λ n. n))
