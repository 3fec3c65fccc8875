-- ===== src/Cluster/Readiness.antt =====
-- The parts of the claims' reconciler that end in a write of the status.
use xenonite.Base.{String, not, Bool, Bool-cases, inl, inr}
use xenonite.Base.Dict.{Dict}
use xenonite.Api.Core.{Message, Error, CtrlResult, Node}
use xenonite.Api.NodeClaim.{XenonNodeClaim}
use xenonite.Exec.{Call, Result, ok, err, History, External, request, pure, raise, ◌>>=◌}
use xenonite.Exec.Emits.{Emits, Emits-if, Emits-pure, Emits-attempt, Emits-request}
use xenonite.Exec.Triple.{
  Triple, Triple-bind, Triple-before, Triple-pure, Triple-raise, Triple-attempt, Attempted,
}
use xenonite.Claim.Methods.{
  set_condition, fail_with_status, label_node, patch_labels, ready_condition, with_node,
  reconcile_readiness,
}
use xenonite.Claim.Objects.{poll, is_node_ready}
use xenonite.Cluster.Ledger.{IsNeutral}
use xenonite.Cluster.Server.{
  Once, InHand, IsPending, InHand-IsPending, neutral-InHand, status_write-Once,
}

module _ (ext : External) (w : String) where
  pub set_condition-IsPending :
      (claim : XenonNodeClaim) (type status reason : String) (message : Message) (h : History)
      → IsPending w claim h
      → IsPending w (set_condition ext claim type status reason message) h
  unfolding set_condition
  set_condition-IsPending claim type status reason message h p = record {
    own = p.own;
    other = p.other;
    calm = p.calm;
  }

  ready_condition-IsPending :
      (node : Node) (claim : XenonNodeClaim) (h : History)
      → IsPending w claim h
      → IsPending w (ready_condition ext node claim) h
  unfolding ready_condition
  ready_condition-IsPending node claim h p = elim (Bool-cases (is_node_ready node)) [
    | inl t ↦ rw t (set_condition-IsPending claim _ _ _ _ h p)
    | inr f ↦ rw f (set_condition-IsPending claim _ _ _ _ h p)
  ]

  pub fail_with_status-Once :
      (claim : XenonNodeClaim) (e : Error)
      → Triple (IsPending w claim) (fail_with_status ext claim e) (λ _ h. Once w h)
  unfolding fail_with_status
  fail_with_status-Once claim e =
      Triple-bind _ _ (Attempted (λ _ h. Once w h))
        (Triple-attempt (λ _ h. Once w h) _ (status_write-Once w ext claim))
        (λ r. Triple-raise e (λ h p. p)) (λ _ _ no. absurd no)

  -- The status is written, and a result is returned.
  pub write_and_return :
      (claim : XenonNodeClaim) (res : CtrlResult)
      → Triple
          (IsPending w claim)
          (request ext (Call.update_claim_status claim) >>= λ _. pure res)
          (λ _ h. Once w h)
  write_and_return claim res =
      Triple-bind _ _ (λ _ h. Once w h) (status_write-Once w ext claim)
        (λ _. Triple-pure res (λ h p. p)) (λ _ _ p. p)

  patch_labels-IsNeutral :
      (node : Node) (l : Dict String × Bool) → Emits IsNeutral (patch_labels ext node l)
  unfolding patch_labels
  patch_labels-IsNeutral node (labels, changed) =
      Emits-if (not changed) _ _ (Emits-pure node) (Emits-request ext (Call.patch_node node _) tt)

  label_node-IsNeutral :
      (node : Node) (claim : XenonNodeClaim) → Emits IsNeutral (label_node ext node claim)
  unfolding label_node
  label_node-IsNeutral node claim = patch_labels-IsNeutral node _

  with_node-Once :
      (claim : XenonNodeClaim) (found : Result Node)
      → Triple (InHand w claim) (with_node ext claim found) (λ _ h. Once w h)
  unfolding with_node raise
  with_node-Once claim (err e) = elim (Bool-cases (ext.is_not_found e)) [
    | inl t ↦ rw t (
        Triple-before _ (write_and_return _ poll)
          (λ h i. set_condition-IsPending claim _ _ _ _ h (InHand-IsPending w claim h i)))
    | inr f ↦ rw f (Triple-raise e (λ h i. i.once))
  ]
  with_node-Once claim (ok node) =
      Triple-bind _ _ (λ _ h. InHand w claim h)
        (neutral-InHand w claim _ (label_node-IsNeutral node claim))
        (λ node'.
          Triple-before _ (write_and_return _ _)
            (λ h i. ready_condition-IsPending node' claim h (InHand-IsPending w claim h i)))
        (λ _ _ i. i.once)

  pub reconcile_readiness-Once :
      (claim : XenonNodeClaim)
      → Triple (InHand w claim) (reconcile_readiness ext claim) (λ _ h. Once w h)
  unfolding reconcile_readiness
  reconcile_readiness-Once claim =
      Triple-bind _ _ (λ _ h. InHand w claim h)
        (neutral-InHand w claim _
          (Emits-attempt _ (Emits-request ext (Call.get_node claim.metadata.name) tt)))
        (λ found. with_node-Once claim found) (λ _ _ i. i.once)
