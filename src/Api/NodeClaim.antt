-- ===== src/Api/NodeClaim.antt =====
-- api/v1/xenonnodeclaim_types.go
use xenonite.Base.{String, List}
use xenonite.Api.Core.{ObjectMeta, NodeSelectorRequirement, ResourceList, Condition}

pub record XenonNodeClaimSpec : Type 0 where
  pub node_pool_ref : String
  pub requirements : List NodeSelectorRequirement
  pub resources : ResourceList

pub record XenonNodeClaimStatus : Type 0 where
  pub provider_id : String
  pub node_name : String
  pub capacity : ResourceList
  pub allocatable : ResourceList
  pub conditions : List Condition

pub record XenonNodeClaim : Type 0 where
  pub metadata : ObjectMeta
  pub spec : XenonNodeClaimSpec
  pub status : XenonNodeClaimStatus

abbrev pub empty_status : XenonNodeClaimStatus
empty_status = record {
  provider_id = "";
  node_name = "";
  capacity = List.[];
  allocatable = List.[];
  conditions = List.[];
}
