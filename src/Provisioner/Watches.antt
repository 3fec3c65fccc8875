-- ===== src/Provisioner/Watches.antt =====
-- internal/controller/provisioner_controller.go: which pools an event enqueues. A request for a
-- pool is the pool's name; pools have no namespace.
use xenonite.Base.{String, ◌==◌, List, [], ◌∷◌, if◌then◌else◌}
use xenonite.Base.Dict.{entry}
use xenonite.Api.Core.{Pod, Node}
use xenonite.Api.Labels.{label_node_pool}
use xenonite.Api.NodeClaim.{XenonNodeClaim}
use xenonite.Provisioner.Pods.{requested_pool_name}

-- A client.Object, by the types that the functions assert.
pub data Object : Type 0 where
  pod : Pod → Object
  claim : XenonNodeClaim → Object
  node : Node → Object
  other : Object

abbrev request_for : String → List String
request_for name = if name == "" then [] else name ∷ []

unfoldable pub pool_for_pod : Object → List String
pool_for_pod (pod p) = request_for (requested_pool_name p)
pool_for_pod _ = []

unfoldable pub pool_for_claim : Object → List String
pool_for_claim (claim c) = request_for c.spec.node_pool_ref
pool_for_claim _ = []

unfoldable pub pool_for_node : Object → List String
pool_for_node (node n) = request_for (entry label_node_pool n.metadata.labels)
pool_for_node _ = []

-- The index "spec.nodeName".
unfoldable pub index_by_node : Pod → List String
index_by_node p = p.spec.node_name ∷ []
