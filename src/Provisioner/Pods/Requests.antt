-- ===== src/Provisioner/Pods/Requests.antt =====
-- `podRequestsPool` and `requestedPoolName` against one description of what a pod asks for.
use xenonite.Base.{
  String, ◌≡◌, ◌↔◌, true, ◌==◌, eq_iff, Option, none, some, List, ◌⊎◌, inl, inr, arith, Any,
  any_iff, Bool-cases,
}
use xenonite.Base.Dict.{entry}
use xenonite.Api.Core.{Pod, NodeSelectorRequirement, NodeSelectorTerm}
use xenonite.Api.Labels.{label_node_pool}
use xenonite.Provisioner.Pods.{expr_requests, term_requests, terms_request, pod_requests_pool}

-- The expression asks for the pool: the pool's label is in a list that holds its name.
abbrev pub ExprAsks : String → NodeSelectorRequirement → Type 0
ExprAsks name expr =
    (expr.key ≡ label_node_pool) × (expr.operator ≡ "In") × Any (λ v. v ≡ name) expr.values

abbrev pub TermAsks : String → NodeSelectorTerm → Type 0
TermAsks name term = Any (ExprAsks name) term.match_expressions

abbrev pub TermsAsk : String → Option (List NodeSelectorTerm) → Type 0
TermsAsk name none = ⊥
TermsAsk name (some terms) = Any (TermAsks name) terms

-- The pod asks for the pool, by its node selector or by a required term of its node affinity.
abbrev pub Asks : Pod → String → Type 0
Asks pod name =
    (entry label_node_pool pod.spec.node_selector ≡ name) ⊎ TermsAsk name pod.spec.required_terms

equal_iff : (a b : String) → ((a == b) ≡ true) ↔ (a ≡ b)
equal_iff a b = eq_iff a b

expr_requests_iff :
    (name : String) (expr : NodeSelectorRequirement)
    → (expr_requests name expr ≡ true) ↔ ExprAsks name expr
expr_requests_iff name expr =
    let values = any_iff (λ v. v == name) (λ v. v ≡ name) expr.values (λ v. equal_iff v name) in
    let key = equal_iff expr.key label_node_pool in
    let operator = equal_iff expr.operator "In" in
    ground (arith, key.0, key.1, operator.0, operator.1, values.0, values.1)

term_requests_iff :
    (name : String) (term : NodeSelectorTerm)
    → (term_requests name term ≡ true) ↔ TermAsks name term
term_requests_iff name term =
    any_iff (expr_requests name) (ExprAsks name) term.match_expressions (expr_requests_iff name)

terms_request_iff :
    (name : String) (terms : Option (List NodeSelectorTerm))
    → (terms_request name terms ≡ true) ↔ TermsAsk name terms
unfolding terms_request
terms_request_iff name none = (λ e. cc, λ a. absurd a)
terms_request_iff name (some terms) =
    any_iff (term_requests name) (TermAsks name) terms (term_requests_iff name)

-- `podRequestsPool` tells exactly whether the pod asks for the pool.
pub pod_requests_pool_iff :
    (pod : Pod) (name : String) → (pod_requests_pool pod name ≡ true) ↔ Asks pod name
unfolding pod_requests_pool
pod_requests_pool_iff pod name =
    let selector = equal_iff (entry label_node_pool pod.spec.node_selector) name in
    let terms = terms_request_iff name pod.spec.required_terms in
    elim (Bool-cases (entry label_node_pool pod.spec.node_selector == name)) [
      | inl t ↦ (λ _. inl (selector.0 t), λ _. rw t)
      | inr f ↦ (
        λ e. inr (terms.0 (rw f at e)),
        λ a. rw f (elim a [ inl s ↦ (let t = selector.1 s in cc) | inr asked ↦ terms.1 asked ]),
      )
    ]
