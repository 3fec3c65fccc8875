-- ===== src/Provisioner/ScaleUp/Counts.antt =====
-- How many claims `scaleUp` makes.
use xenonite.Base.{
  ℕ, zero, suc, ◌+◌, ◌-◌, ◌≤◌, List, [], ◌∷◌, ◌++◌, ◌≡◌, refl, leb, length, arith, if◌then◌else◌,
}
use xenonite.Base.Int.{ℤ, pos, negsuc, pos_part, ◌+ℤ◌, ◌-ℤ◌}
use xenonite.Api.Core.{Pod}
use xenonite.Api.NodeClaim.{XenonNodeClaim}
use xenonite.Api.NodePool.{XenonNodePool}
use xenonite.Exec.{
  Call, Event, called, read_clock, History, Result, ok, err, External, continue, pure, lift,
  request, ◌>>=◌,
}
use xenonite.Provisioner.ScaleUp.{
  pool_node_limit, in_flight, claims_needed, create_claim, create_claims, scale_up,
}

-- How many claims are still allowed under a limit; a limit of 0 or less is none.
abbrev pub room : ℤ → (want existing : ℕ) → ℕ
room (pos zero) want existing = want
room (pos (suc l)) want existing = if leb want (suc l - existing) then want else suc l - existing
room (negsuc _) want existing = want

-- One claim for each waiting pod that no claim in flight covers, as far as the limit allows.
abbrev pub shortage : External → XenonNodePool → List Pod → List XenonNodeClaim → ℕ
shortage ext pool pending claims =
    room (pool_node_limit pool) (length pending - in_flight ext claims) (length claims)

room_nothing : (limit : ℤ) (covered existing : ℕ) → 0 ≡ room limit (0 - covered) existing
room_nothing (pos zero) covered existing = omega arith
room_nothing (pos (suc l)) covered existing = ground arith
room_nothing (negsuc l) covered existing = omega arith

claims_needed_within :
    (ext : External) (limit : ℤ) (pool : XenonNodePool) (pending : List Pod)
    (claims : List XenonNodeClaim)
    → pool_node_limit pool ≡ limit
    → pos_part (claims_needed ext pool pending claims)
      ≡ room limit (length pending - in_flight ext claims) (length claims)
unfolding claims_needed ◌+ℤ◌ ◌-ℤ◌
claims_needed_within ext (pos zero) pool pending claims e = rw e (ground arith)
claims_needed_within ext (pos (suc l)) pool pending claims e = rw e (ground arith)
claims_needed_within ext (negsuc l) pool pending claims e = rw e (ground arith)

pub pos_part-claims_needed :
    (ext : External) (pool : XenonNodePool) (pending : List Pod) (claims : List XenonNodeClaim)
    → pos_part (claims_needed ext pool pending claims) ≡ shortage ext pool pending claims
pos_part-claims_needed ext pool pending claims =
    claims_needed_within ext (pool_node_limit pool) pool pending claims refl

abbrev creates : Call → ℕ
creates (Call.create_claim _) = 1
creates _ = 0

-- How many claims the calls send to the API server to make.
abbrev pub creations : List Event → ℕ
creations [] = 0
creations (called c _ ∷ es) = creates c + creations es
creations (read_clock _ ∷ es) = creations es

pub creations-append : (es fs : List Event) → creations (es ++ fs) ≡ creations es + creations fs
creations-append [] fs = omega arith
creations-append (read_clock _ ∷ es) fs = creations-append es fs
creations-append (called c r ∷ es) fs = omega (arith, creations-append es fs)

-- At most `n` claims are sent, and `n` of them when the action succeeds.
abbrev pub MakesUpTo {ℓ} : {A : Type ℓ} → ℕ → Result A × List Event → Type 0
MakesUpTo n (ok _, es) = creations es ≡ n
MakesUpTo n (err _, es) = creations es ≤ n

module _ (ext : External) (pool : XenonNodePool) where
  create_claim-MakesUpTo : (h : History) → MakesUpTo 1 (create_claim ext pool h)
  unfolding create_claim ◌>>=◌ request pure lift
  create_claim-MakesUpTo h = ground arith

  continue-MakesUpTo :
      (r : Result (Unit {0})) (es h : History) (n : ℕ)
      → MakesUpTo 1 (r, es)
      → ((h : History) → MakesUpTo n (create_claims ext pool n h))
      → MakesUpTo (suc n) (continue r (λ _. create_claims ext pool n) h es)
  continue-MakesUpTo (ok _) es h n one rest =
      ground (arith, creations-append es (create_claims ext pool n (h ++ es)).1, rest (h ++ es))
  continue-MakesUpTo (err _) es h n one rest = omega (arith, one)

  create_claims-MakesUpTo : (n : ℕ) (h : History) → MakesUpTo n (create_claims ext pool n h)
  unfolding create_claims pure ◌>>=◌
  create_claims-MakesUpTo zero h = omega arith
  create_claims-MakesUpTo (suc n) h =
      continue-MakesUpTo (create_claim ext pool h).0 (create_claim ext pool h).1 h n
        (create_claim-MakesUpTo h) (create_claims-MakesUpTo n)

-- `scaleUp` sends at most as many claims as the shortage, and exactly as many when it succeeds.
pub scale_up-shortage :
    (ext : External) (pool : XenonNodePool) (pending : List Pod) (claims : List XenonNodeClaim)
    (h : History)
    → MakesUpTo (shortage ext pool pending claims) (scale_up ext pool pending claims h)
unfolding scale_up pure
scale_up-shortage ext pool [] claims h =
    room_nothing (pool_node_limit pool) (in_flight ext claims) (length claims)
scale_up-shortage ext pool (p ∷ pending) claims h =
    rw (← pos_part-claims_needed ext pool (p ∷ pending) claims)
      (create_claims-MakesUpTo ext pool (pos_part (claims_needed ext pool (p ∷ pending) claims)) h)
