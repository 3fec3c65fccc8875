-- ===== src/Api/NodePool.antt =====
-- api/v1/xenonnodepool_types.go
use xenonite.Base.{ℕ, String, List, Option}
use xenonite.Base.Dict.{Dict}
use xenonite.Api.Core.{ObjectMeta, NodeSelectorRequirement, ResourceList, Condition}

pub record XenonNodeClaimTemplateSpec : Type 0 where
  pub requirements : List NodeSelectorRequirement
  pub resources : ResourceList

pub record XenonNodeClaimTemplate : Type 0 where
  pub labels : Dict String
  pub annotations : Dict String
  pub spec : XenonNodeClaimTemplateSpec

-- corev1.TypedLocalObjectReference
pub record ProviderRef : Type 0 where
  pub api_group : Option String
  pub kind : String
  pub name : String

pub record XenonNodePoolSpec : Type 0 where
  pub provider_ref : ProviderRef
  pub template : XenonNodeClaimTemplate
  pub limits : ResourceList
  pub weight : Option ℕ

pub record XenonNodePoolStatus : Type 0 where
  pub resources : ResourceList
  pub conditions : List Condition

pub record XenonNodePool : Type 0 where
  pub metadata : ObjectMeta
  pub spec : XenonNodePoolSpec
  pub status : XenonNodePoolStatus
