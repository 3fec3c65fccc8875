-- ===== src/Provisioner/ScaleDown/Calls.antt =====
-- Which calls `scaleDown` makes.
use xenonite.Base.{List, [], ◌∷◌, Bool, true, false}
use xenonite.Base.Int.{ℤ}
use xenonite.Api.Core.{Pod, Node}
use xenonite.Api.NodeClaim.{XenonNodeClaim}
use xenonite.Api.NodePool.{XenonNodePool}
use xenonite.Exec.{Call, Result, ok, err, Exec, External}
use xenonite.Exec.Emits.{Emits, Emits-bind, Emits-widen, emits_rules}
use xenonite.Provisioner.ScaleDown.{
  is_claim_node_empty, found_empty, check_grace, stamp_empty_since, mark_empty_and_check_grace,
  clear_empty_since, delete_if, deleted, delete_if_idle, scale_down_claim, each, scale_down,
}

-- Every call that is allowed reads, or patches a claim.
abbrev pub IsMarking : Call → Type 0
IsMarking (Call.get_node _) = Unit
IsMarking (Call.list_pods_on _) = Unit
IsMarking (Call.patch_claim _ _) = Unit
IsMarking _ = ⊥

abbrev pub IsRemoving : Call → Type 0
IsRemoving (Call.delete_claim _) = Unit
IsRemoving c = IsMarking c

marking-IsRemoving : (c : Call) → IsMarking c → IsRemoving c
marking-IsRemoving (Call.get_node _) a = tt
marking-IsRemoving (Call.list_pods_on _) a = tt
marking-IsRemoving (Call.patch_claim _ _) a = tt
marking-IsRemoving _ a = absurd a

module _ (ext : External) where
  pub found_empty-IsMarking : (r : Result Node) → Emits IsMarking (found_empty ext r)
  unfolding found_empty
  found_empty-IsMarking (ok node) = search emits_rules
  found_empty-IsMarking (err e) = search emits_rules

  pub is_claim_node_empty-IsMarking :
      (claim : XenonNodeClaim) → Emits IsMarking (is_claim_node_empty ext claim)
  unfolding is_claim_node_empty
  is_claim_node_empty-IsMarking claim = search (emits_rules, found_empty-IsMarking)

  pub check_grace-IsMarking :
      (claim : XenonNodeClaim) (t : ℤ) (r : Result ℤ) → Emits IsMarking (check_grace ext claim t r)
  unfolding check_grace stamp_empty_since
  check_grace-IsMarking claim t (ok since) = search emits_rules
  check_grace-IsMarking claim t (err e) = search emits_rules

  pub mark_empty-IsMarking :
      (claim : XenonNodeClaim) → Emits IsMarking (mark_empty_and_check_grace ext claim)
  unfolding mark_empty_and_check_grace stamp_empty_since
  mark_empty-IsMarking claim = search (emits_rules, check_grace-IsMarking)

  pub clear_empty_since-IsMarking :
      (claim : XenonNodeClaim) → Emits IsMarking (clear_empty_since ext claim)
  unfolding clear_empty_since
  clear_empty_since-IsMarking claim = search emits_rules

  pub each-Emits :
      {allowed : Call → Type 0} (f : XenonNodeClaim → Exec (Unit {0}))
      (claims : List XenonNodeClaim)
      → ((c : XenonNodeClaim) → Emits allowed (f c))
      → Emits allowed (each ext f claims)
  unfolding each
  each-Emits f [] e = search emits_rules
  each-Emits f (c ∷ claims) e =
      Emits-bind (f c) (λ _. each ext f claims) (e c) (λ _. each-Emits f claims e)

  -- While a pod waits for the pool, `scaleDown` only clears the annotations.
  pub scale_down-IsMarking :
      (pool : XenonNodePool) (p : Pod) (pending : List Pod) (claims : List XenonNodeClaim)
      → Emits IsMarking (scale_down ext pool (p ∷ pending) claims)
  unfolding scale_down
  scale_down-IsMarking pool p pending claims =
      each-Emits (clear_empty_since ext) claims clear_empty_since-IsMarking

  pub deleted-IsMarking : (r : Result (Unit {0})) → Emits IsMarking (deleted ext r)
  unfolding deleted
  deleted-IsMarking (ok _) = search emits_rules
  deleted-IsMarking (err e) = search emits_rules

  widened {ℓ} : {A : Type ℓ} (m : Exec A) → Emits IsMarking m → Emits IsRemoving m
  widened m e = Emits-widen marking-IsRemoving m e

  delete_if-IsRemoving :
      (expired : Bool) (claim : XenonNodeClaim) → Emits IsRemoving (delete_if ext expired claim)
  unfolding delete_if
  delete_if-IsRemoving false claim = search emits_rules
  delete_if-IsRemoving true claim = search (emits_rules, widened, deleted-IsMarking)

  delete_if_idle-IsRemoving :
      (empty : Bool) (claim : XenonNodeClaim) → Emits IsRemoving (delete_if_idle ext empty claim)
  unfolding delete_if_idle
  delete_if_idle-IsRemoving false claim =
      widened (clear_empty_since ext claim) (clear_empty_since-IsMarking claim)
  delete_if_idle-IsRemoving true claim =
      Emits-bind (mark_empty_and_check_grace ext claim) (λ x. delete_if ext x claim)
        (widened _ (mark_empty-IsMarking claim)) (λ x. delete_if-IsRemoving x claim)

  scale_down_claim-IsRemoving :
      (claim : XenonNodeClaim) → Emits IsRemoving (scale_down_claim ext claim)
  unfolding scale_down_claim
  scale_down_claim-IsRemoving claim =
      search (emits_rules, widened, is_claim_node_empty-IsMarking, delete_if_idle-IsRemoving)

  pub scale_down-IsRemoving :
      (pool : XenonNodePool) (pending : List Pod) (claims : List XenonNodeClaim)
      → Emits IsRemoving (scale_down ext pool pending claims)
  unfolding scale_down
  scale_down-IsRemoving pool [] claims =
      each-Emits (scale_down_claim ext) claims scale_down_claim-IsRemoving
  scale_down-IsRemoving pool (p ∷ pending) claims =
      widened _ (scale_down-IsMarking pool p pending claims)
