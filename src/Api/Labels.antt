-- ===== src/Api/Labels.antt =====
-- api/v1/labels.go
use xenonite.Base.{String}

abbrev pub label_node_pool : String
label_node_pool = "xenonite.io/nodepool"

abbrev pub label_node_claim : String
label_node_claim = "xenonite.io/nodeclaim"

abbrev pub finalizer_node_claim : String
finalizer_node_claim = "xenonite.io/nodeclaim"
