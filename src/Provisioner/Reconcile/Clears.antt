-- ===== src/Provisioner/Reconcile/Clears.antt =====
-- What one `Reconcile` of a pool is sure to delete.
use xenonite.Base.{List, ◌++◌, ◌≡◌, true}
use xenonite.Base.Int.{ℤ, le_int, ◌+ℤ◌}
use xenonite.Api.NodeClaim.{XenonNodeClaim}
use xenonite.Exec.{Event, External, History, ok}
use xenonite.Provisioner.ScaleDown.{empty_grace_period, is_claim_node_empty}

module _ (ext : External) (claim : XenonNodeClaim) (t : ℤ) where
  -- From now on the node shows empty, and the grace period after `t` has passed.
  pub record StaysIdle (h : History) : Type 0 where
    pub empty : (es : List Event) → (is_claim_node_empty ext claim (h ++ es)).0 ≡ ok true
    pub late : (es : List Event) → le_int (t +ℤ empty_grace_period) (ext.clock (h ++ es)) ≡ true
