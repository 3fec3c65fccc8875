-- ===== src/Provisioner/Pods/States.antt =====
-- What `isPodUnschedulable` and `isReschedulablePod` say of a pod.
use xenonite.Base.{
  ◌≡◌, ◌≢◌, ◌↔◌, true, false, Option, none, some, String, eq_iff, arith, Any, any_iff, refl,
}
use xenonite.Base.Dict.{lookup}
use xenonite.Api.Core.{Pod, Condition, condition_false, is_zero}
use xenonite.Provisioner.Pods.{
  is_pod_unschedulable, is_reschedulable_pod, is_unschedulable, is_daemon_set, is_some,
  mirror_annotation,
}

abbrev IsRefused : Condition → Type 0
IsRefused c =
    (c.type ≡ "PodScheduled") × (c.status ≡ condition_false) × (c.reason ≡ "Unschedulable")

-- The pod waits for a node: it has none, it is pending, and the scheduler found no place for it.
abbrev pub IsWaiting : Pod → Type 0
IsWaiting pod =
    (pod.spec.node_name ≡ "") × (pod.status.phase ≡ "Pending") × Any IsRefused pod.status.conditions

is_unschedulable_iff : (c : Condition) → (is_unschedulable c ≡ true) ↔ IsRefused c
is_unschedulable_iff c =
    let t = eq_iff c.type "PodScheduled" in
    let s = eq_iff c.status condition_false in
    let r = eq_iff c.reason "Unschedulable" in ground (arith, t.0, t.1, s.0, s.1, r.0, r.1)

-- `isPodUnschedulable` holds of exactly the pods that wait for a node.
is_pod_unschedulable_iff : (pod : Pod) → (is_pod_unschedulable pod ≡ true) ↔ IsWaiting pod
unfolding is_pod_unschedulable
is_pod_unschedulable_iff pod =
    let n = eq_iff pod.spec.node_name "" in
    let p = eq_iff pod.status.phase "Pending" in
    let c = any_iff is_unschedulable IsRefused pod.status.conditions is_unschedulable_iff in
    ground (arith, n.0, n.1, p.0, p.1, c.0, c.1)

-- The pod would go to another node: it is not being deleted, is no mirror of a static pod, belongs
-- to no daemon set, and still runs or is to run.
abbrev pub MustMove : Pod → Type 0
MustMove pod =
    (pod.metadata.deletion_timestamp ≡ none)
    × (lookup mirror_annotation pod.metadata.annotations ≡ none)
    × (Any (λ o. o.kind ≡ "DaemonSet") pod.metadata.owner_references → ⊥)
    × (pod.status.phase ≢ "Succeeded")
    × (pod.status.phase ≢ "Failed")

is_zero_iff : (t : Option _) → (is_zero t ≡ true) ↔ (t ≡ none)
is_zero_iff none = (λ _. refl, λ _. refl)
is_zero_iff (some _) = (λ e. cc, λ e. cc)

is_some_iff : (v : Option String) → (is_some v ≡ false) ↔ (v ≡ none)
is_some_iff none = (λ _. refl, λ _. refl)
is_some_iff (some _) = (λ e. cc, λ e. cc)

-- `isReschedulablePod` holds of exactly the pods that would have to move.
pub is_reschedulable_pod_iff : (pod : Pod) → (is_reschedulable_pod pod ≡ true) ↔ MustMove pod
unfolding is_reschedulable_pod
is_reschedulable_pod_iff pod =
    let z = is_zero_iff pod.metadata.deletion_timestamp in
    let m = is_some_iff (lookup mirror_annotation pod.metadata.annotations) in
    let d =
      any_iff is_daemon_set (λ o. o.kind ≡ "DaemonSet") pod.metadata.owner_references
        (λ o. eq_iff o.kind "DaemonSet") in
    let s = eq_iff pod.status.phase "Succeeded" in
    let f = eq_iff pod.status.phase "Failed" in
    ground (arith, z.0, z.1, m.0, m.1, d.0, d.1, s.0, s.1, f.0, f.1)
