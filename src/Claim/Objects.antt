-- ===== src/Claim/Objects.antt =====
-- internal/controller/xenonnodeclaim_controller.go: the functions on claims
-- and nodes that make no call.
use xenonite.Base.{
  ℕ, ◌*◌, String, Bool, true, false, ◌&&◌, not, ◌==◌, Option, none, some, List, [], ◌∷◌,
  if◌then◌else◌,
}
use xenonite.Base.Int.{ℤ, pos, quot}
use xenonite.Base.Dict.{Dict, lookup, insert, entry}
use xenonite.Api.Core.{Condition, Node, CtrlResult, condition_true}
use xenonite.Api.Labels.{label_node_pool, label_node_claim}
use xenonite.Api.NodeClaim.{XenonNodeClaim}
use xenonite.Api.ProxmoxProvider.{ProxmoxCredentials}
use xenonite.Provider.{CreateRequest}

-- 15 * time.Second
abbrev pub node_registration_poll : ℤ
node_registration_poll = pos 15_000_000_000

abbrev pub done : CtrlResult
done = record { requeue_after = pos 0 }

abbrev pub poll : CtrlResult
poll = record { requeue_after = node_registration_poll }

unfoldable pub proxmox_credentials : ProxmoxCredentials → ProxmoxCredentials
proxmox_credentials c = record { username = c.username; password = c.password; realm = c.realm }

-- `if q, ok := resources[name]; ok { n = int(q.Value() / unit) }`
abbrev amount : Option ℤ → ℕ → ℤ
amount none unit = pos 0
amount (some q) unit = quot q unit

-- (cores, memMB, diskGB)
unfoldable pub requested_size : XenonNodeClaim → ℤ × ℤ × ℤ
requested_size claim =
    let resources = claim.spec.resources in
    (
      amount (lookup "cpu" resources) 1,
      amount (lookup "memory" resources) (1024 * 1024),
      amount (lookup "storage" resources) (1024 * 1024 * 1024),
    )

conditions_ready : List Condition → Bool
conditions_ready [] = false
conditions_ready (c ∷ cs) =
    if c.type == "Ready" then c.status == condition_true else conditions_ready cs

unfoldable pub is_node_ready : Node → Bool
unfolding conditions_ready
is_node_ready node = conditions_ready node.conditions

abbrev pub with_finalizers : List String → XenonNodeClaim → XenonNodeClaim
with_finalizers fs claim = record claim { metadata = record claim.metadata { finalizers = fs } }

-- claim.Status.ProviderID = providerID, where there is one to record
unfoldable pub record_id : String → XenonNodeClaim → XenonNodeClaim
record_id id claim =
    if not (id == "") && claim.status.provider_id == ""
    then record claim { status = record claim.status { provider_id = id } }
    else claim

-- One `if node.Labels[key] != value { …; changed = true }` of `labelNode`.
unfoldable pub stamp : String → String → Dict String × Bool → Dict String × Bool
stamp key value (labels, changed) =
    if entry key labels == value then (labels, changed) else (insert key value labels, true)

-- The labels after `labelNode`, and whether they changed.
unfoldable pub node_labels : XenonNodeClaim → Dict String → Dict String × Bool
unfolding stamp
node_labels claim labels =
    stamp label_node_claim claim.metadata.name
      (stamp label_node_pool claim.spec.node_pool_ref (labels, false))

unfoldable pub create_request : XenonNodeClaim → String → CreateRequest
create_request claim user_data =
    let (cores, mem_mb, disk_gb) = requested_size claim in
    record {
      name = claim.metadata.name;
      cores = cores;
      memory_mb = mem_mb;
      disk_gb = disk_gb;
      cloud_init_user_data = user_data;
    }
