-- ===== src/Provisioner/Pods.antt =====
-- internal/controller/provisioner_controller.go: the functions on pods.
pub mod Requests
pub mod States
use xenonite.Base.{
  String, Bool, true, false, ◌&&◌, ◌||◌, not, ◌==◌, Option, none, some, List, [], ◌∷◌, any,
  if◌then◌else◌,
}
use xenonite.Base.Dict.{lookup, entry}
use xenonite.Api.Core.{
  Condition, OwnerReference, NodeSelectorRequirement, NodeSelectorTerm, Pod, is_zero,
  condition_false,
}
use xenonite.Api.Labels.{label_node_pool}

-- `expr.Key == xv1.LabelNodePool && expr.Operator == corev1.NodeSelectorOpIn`
abbrev pub selects_pool : NodeSelectorRequirement → Bool
selects_pool expr = expr.key == label_node_pool && expr.operator == "In"

abbrev pub expr_requests : String → NodeSelectorRequirement → Bool
expr_requests pool_name expr =
    if not (selects_pool expr) then false else any (λ v. v == pool_name) expr.values

abbrev pub term_requests : String → NodeSelectorTerm → Bool
term_requests pool_name term = any (expr_requests pool_name) term.match_expressions

terms_request : String → Option (List NodeSelectorTerm) → Bool
terms_request pool_name none = false
terms_request pool_name (some terms) = any (term_requests pool_name) terms

unfoldable pub pod_requests_pool : Pod → String → Bool
unfolding terms_request
pod_requests_pool pod pool_name =
    if entry label_node_pool pod.spec.node_selector == pool_name
    then true
    else terms_request pool_name pod.spec.required_terms

abbrev is_unschedulable : Condition → Bool
is_unschedulable c =
    c.type == "PodScheduled" && (c.status == condition_false && c.reason == "Unschedulable")

unfoldable pub is_pod_unschedulable : Pod → Bool
is_pod_unschedulable pod =
    if not (pod.spec.node_name == "") || not (pod.status.phase == "Pending")
    then false
    else any is_unschedulable pod.status.conditions

abbrev pub mirror_annotation : String
mirror_annotation = "kubernetes.io/config.mirror"

abbrev pub is_some {ℓ} : {A : Type ℓ} → Option A → Bool
is_some none = false
is_some (some _) = true

abbrev pub is_daemon_set : OwnerReference → Bool
is_daemon_set owner = owner.kind == "DaemonSet"

unfoldable pub is_reschedulable_pod : Pod → Bool
is_reschedulable_pod pod =
    if not (is_zero pod.metadata.deletion_timestamp)
    then false
    else if is_some (lookup mirror_annotation pod.metadata.annotations)
    then false
    else if any is_daemon_set pod.metadata.owner_references
    then false
    else if pod.status.phase == "Succeeded" || pod.status.phase == "Failed"
    then false
    else true

-- The value that one expression asks for first; `none` goes on to the next expression.
abbrev pub expr_value : NodeSelectorRequirement → List String → Option String
expr_value expr [] = none
expr_value expr (v ∷ _) = if selects_pool expr then some v else none

exprs_value : List NodeSelectorRequirement → Option String
exprs_value [] = none
exprs_value (expr ∷ exprs) = elim (expr_value expr expr.values) [
  | none ↦ exprs_value exprs
  | some v ↦ some v
]

terms_value : List NodeSelectorTerm → String
unfolding exprs_value
terms_value [] = ""
terms_value (term ∷ terms) = elim (exprs_value term.match_expressions) [
  | none ↦ terms_value terms
  | some v ↦ v
]

affinity_value : Option (List NodeSelectorTerm) → String
unfolding terms_value
affinity_value none = ""
affinity_value (some terms) = terms_value terms

unfoldable pub requested_pool_name : Pod → String
unfolding affinity_value
requested_pool_name pod =
    let v = entry label_node_pool pod.spec.node_selector in
    if not (v == "") then v else affinity_value pod.spec.required_terms
