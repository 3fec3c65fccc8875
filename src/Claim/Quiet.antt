-- ===== src/Claim/Quiet.antt =====
-- Which calls the parts of the claim's reconciler make, whatever the answers.
use xenonite.Base.{String, Option, none, some, Bool, not}
use xenonite.Base.Dict.{Dict}
use xenonite.Api.Core.{Error, Node}
use xenonite.Api.NodeClaim.{XenonNodeClaim}
use xenonite.Api.ProxmoxProvider.{ProxmoxProviderSpec, SecretKeyRef}
use xenonite.Exec.{Call, External, Result, ok, err}
use xenonite.Exec.Emits.{Emits, Emits-if, Emits-pure, Emits-request, emits_rules}
use xenonite.Claim.Methods.{
  fail_with_status, patch_labels, label_node, with_node, reconcile_readiness, after_create,
}
use xenonite.Claim.Reconcile.{
  XenonNodeClaimReconciler, secret_value, read_secret_key, render_cloud_init, resolve_provider,
}

-- Reading the objects that a claim refers to.
abbrev pub IsReading : Call → Type 0
IsReading (Call.get_pool _) = Unit
IsReading (Call.get_provider _) = Unit
IsReading (Call.get_secret _ _) = Unit
IsReading _ = ⊥

-- Reading a node, labelling it, and writing the claim's status.
abbrev pub IsReporting : Call → Type 0
IsReporting (Call.get_node _) = Unit
IsReporting (Call.patch_node _ _) = Unit
IsReporting (Call.update_claim_status _) = Unit
IsReporting _ = ⊥

module _ (ext : External) where
  pub fail_with_status-IsReporting :
      (claim : XenonNodeClaim) (e : Error) → Emits IsReporting (fail_with_status ext claim e)
  unfolding fail_with_status
  fail_with_status-IsReporting claim e = search emits_rules

  patch_labels-IsReporting :
      (node : Node) (l : Dict String × Bool) → Emits IsReporting (patch_labels ext node l)
  unfolding patch_labels
  patch_labels-IsReporting node (labels, changed) =
      Emits-if (not changed) _ _ (Emits-pure node) (Emits-request ext (Call.patch_node node _) tt)

  label_node-IsReporting :
      (node : Node) (claim : XenonNodeClaim) → Emits IsReporting (label_node ext node claim)
  unfolding label_node
  label_node-IsReporting node claim = patch_labels-IsReporting node _

  with_node-IsReporting :
      (claim : XenonNodeClaim) (r : Result Node) → Emits IsReporting (with_node ext claim r)
  unfolding with_node
  with_node-IsReporting claim (err e) = search emits_rules
  with_node-IsReporting claim (ok node) = search (emits_rules, label_node-IsReporting)

  pub reconcile_readiness-IsReporting :
      (claim : XenonNodeClaim) → Emits IsReporting (reconcile_readiness ext claim)
  unfolding reconcile_readiness
  reconcile_readiness-IsReporting claim = search (emits_rules, with_node-IsReporting)

  pub after_create-IsReporting :
      (claim : XenonNodeClaim) (e : Option Error) → Emits IsReporting (after_create ext claim e)
  unfolding after_create
  after_create-IsReporting claim none = search emits_rules
  after_create-IsReporting claim (some e) = fail_with_status-IsReporting _ e

  module _ (r : XenonNodeClaimReconciler) where
    secret_value-IsReading :
        (ref : SecretKeyRef) (v : Option String)
        → Emits IsReading (secret_value r.system_namespace ref v)
    unfolding secret_value
    secret_value-IsReading ref none = search emits_rules
    secret_value-IsReading ref (some v) = search emits_rules

    read_secret_key-IsReading : (ref : SecretKeyRef) → Emits IsReading (read_secret_key ext r ref)
    unfolding read_secret_key
    read_secret_key-IsReading ref = search (emits_rules, secret_value-IsReading)

    pub render_cloud_init-IsReading :
        (claim : XenonNodeClaim) (spec : ProxmoxProviderSpec)
        → Emits IsReading (render_cloud_init ext r claim spec)
    unfolding render_cloud_init
    render_cloud_init-IsReading claim spec = search (emits_rules, read_secret_key-IsReading)

    pub resolve_provider-IsReading :
        (claim : XenonNodeClaim) → Emits IsReading (resolve_provider ext r claim)
    unfolding resolve_provider
    resolve_provider-IsReading claim = search emits_rules depth 12
