-- ===== src/Provisioner/ScaleDown/Bounded.antt =====
-- How many calls `scaleDown` makes.
use xenonite.Base.{◌*◌, List, [], ◌∷◌, length, arith, Bool, not}
use xenonite.Api.Core.{Pod, is_zero}
use xenonite.Api.NodeClaim.{XenonNodeClaim}
use xenonite.Api.NodePool.{XenonNodePool}
use xenonite.Exec.{Exec, External, ◌>>=◌, request, now}
use xenonite.Exec.Bounded.{Bounded, Bounded-more, Bounded-pure, Bounded-if, Bounded-bind}
use xenonite.Provisioner.ScaleDown.{
  is_claim_node_empty, mark_empty_and_check_grace, clear_empty_since, delete_if_idle,
  scale_down_claim, each, scale_down,
}

module _ (ext : External) where
  clear_empty_since-Bounded : (claim : XenonNodeClaim) → Bounded 1 0 (clear_empty_since ext claim)
  unfolding clear_empty_since ◌>>=◌ request
  clear_empty_since-Bounded claim = record { at = λ h. ground arith }

  is_claim_node_empty-Bounded :
      (claim : XenonNodeClaim) → Bounded 2 0 (is_claim_node_empty ext claim)
  unfolding is_claim_node_empty ◌>>=◌ request
  is_claim_node_empty-Bounded claim = record { at = λ h. ground arith }

  delete_if_idle-Bounded :
      (idle : Bool) (claim : XenonNodeClaim) → Bounded 1 0 (delete_if_idle ext idle claim)
  unfolding delete_if_idle mark_empty_and_check_grace clear_empty_since ◌>>=◌ request now
  delete_if_idle-Bounded idle claim = record { at = λ h. ground arith }

  scale_down_claim-Bounded : (claim : XenonNodeClaim) → Bounded 3 0 (scale_down_claim ext claim)
  unfolding scale_down_claim
  scale_down_claim-Bounded claim =
      Bounded-if (not (is_zero claim.metadata.deletion_timestamp)) _ _
        (Bounded-more 3 0 _ (omega arith) (omega arith) (Bounded-pure _))
        (Bounded-bind _ _ (is_claim_node_empty-Bounded claim)
          (λ empty. delete_if_idle-Bounded empty claim))

  each-Bounded :
      (f : XenonNodeClaim → Exec (Unit {0})) (claims : List XenonNodeClaim)
      → ((c : XenonNodeClaim) → Bounded 3 0 (f c))
      → Bounded (length claims * 3) 0 (each ext f claims)
  unfolding each
  each-Bounded f [] one = Bounded-more _ _ _ (omega arith) (omega arith) (Bounded-pure _)
  each-Bounded f (c ∷ claims) one =
      Bounded-more _ _ _ (omega arith) (omega arith)
        (Bounded-bind (f c) (λ _. each ext f claims) (one c) (λ _. each-Bounded f claims one))

  -- Whether or not a pod waits, `scaleDown` makes at most three calls for each claim.
  pub scale_down-Bounded :
      (pool : XenonNodePool) (pending : List Pod) (claims : List XenonNodeClaim)
      → Bounded (length claims * 3) 0 (scale_down ext pool pending claims)
  unfolding scale_down
  scale_down-Bounded pool [] claims =
      each-Bounded (scale_down_claim ext) claims scale_down_claim-Bounded
  scale_down-Bounded pool (p ∷ pending) claims =
      each-Bounded (clear_empty_since ext) claims
        (λ c. Bounded-more _ _ _ (omega arith) (omega arith) (clear_empty_since-Bounded c))
