-- ===== src/Claim/Readiness.antt =====
-- The labels of a claim's node, and the Ready condition.
use xenonite.Base.{String, ◌≡◌, ap, ◌∙◌, Bool, false, ◌==◌, eq_iff, arith, if◌then◌else◌, Any}
use xenonite.Base.Dict.{Dict, entry, lookup-insert}
use xenonite.Api.Core.{text, condition_true}
use xenonite.Api.Labels.{label_node_pool, label_node_claim}
use xenonite.Api.NodeClaim.{XenonNodeClaim}
use xenonite.Exec.{Call, Event, called, History, ok, External, request, ◌>>=◌}
use xenonite.Claim.Objects.{done, stamp, node_labels}
use xenonite.Claim.Methods.{set_condition, label_node, reconcile_readiness, ready_condition}

entry-stamp :
    (key value other : String) (labels : Dict String) (changed : Bool)
    → entry other (stamp key value (labels, changed)).0
      ≡ (if key == other then value else entry other labels)
unfolding stamp
entry-stamp key value other labels changed =
    ground (
      arith,
      lookup-insert key other value labels,
      eq_iff key other,
      eq_iff (entry key labels) value,
    )

pub entry-node_labels :
    (claim : XenonNodeClaim) (labels : Dict String) (key : String)
    → entry key (node_labels claim labels).0 ≡ (
        if label_node_claim == key
        then claim.metadata.name
        else if label_node_pool == key
        then claim.spec.node_pool_ref
        else entry key labels)
unfolding node_labels
entry-node_labels claim labels key =
    entry-stamp label_node_claim claim.metadata.name key _ _
    ∙ ap (λ v. if label_node_claim == key then claim.metadata.name else v)
        (entry-stamp label_node_pool claim.spec.node_pool_ref key labels false)

stamp_same :
    (key value : String) (labels : Dict String) (changed : Bool)
    → entry key labels ≡ value
    → stamp key value (labels, changed) ≡ (labels, changed)
unfolding stamp
stamp_same key value labels changed e = ground (arith, eq_iff (entry key labels) value)

-- Labels that are stamped already.
node_labels_same :
    (claim : XenonNodeClaim) (labels : Dict String)
    → entry label_node_pool labels ≡ claim.spec.node_pool_ref
    → entry label_node_claim labels ≡ claim.metadata.name
    → node_labels claim labels ≡ (labels, false)
unfolding node_labels
node_labels_same claim labels p c =
    ap (stamp label_node_claim claim.metadata.name) (stamp_same label_node_pool _ labels false p)
    ∙ stamp_same label_node_claim _ labels false c

-- Once the labels are stamped, `labelNode` has nothing to change.
node_labels_idem :
    (claim : XenonNodeClaim) (labels : Dict String)
    → node_labels claim (node_labels claim labels).0 ≡ ((node_labels claim labels).0, false)
node_labels_idem claim labels =
    node_labels_same claim _ (entry-node_labels claim labels label_node_pool)
      (entry-node_labels claim labels label_node_claim)

-- The event writes the claim's status with the Ready condition true.
abbrev pub ReportsReady : External → XenonNodeClaim → Event → Type 0
ReportsReady ext claim (called (Call.update_claim_status c) (ok _)) =
    c
    ≡ set_condition ext claim "Ready" condition_true "NodeReady" (text "node registered and ready")
ReportsReady ext claim _ = ⊥

-- The event read the claim's node.
abbrev pub ReadsNode : XenonNodeClaim → Event → Type 0
ReadsNode claim (called (Call.get_node n) (ok _)) = n ≡ claim.metadata.name
ReadsNode claim _ = ⊥

-- Where `reconcileReadiness` asks for no requeue and returns no error, it has read the claim's
-- node and has written, with success, that the claim is ready.
pub reconcile_readiness-done :
    (ext : External) (claim : XenonNodeClaim) (h : History)
    → (reconcile_readiness ext claim h).0 ≡ ok done
    → Any (ReadsNode claim) (reconcile_readiness ext claim h).1
      × Any (ReportsReady ext claim) (reconcile_readiness ext claim h).1
unfolding reconcile_readiness label_node ready_condition ◌>>=◌ request
reconcile_readiness-done ext claim h e = ground arith
