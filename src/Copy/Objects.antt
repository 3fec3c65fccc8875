-- ===== src/Copy/Objects.antt =====
-- api/v1's objects as they lie in memory: slices, maps and pointers are references. A pointer to a
-- struct stands for the struct. TypeMeta, which is two strings, is left out.
use xenonite.Base.{ℕ, String, Bool, Option, none, some, List, []}
use xenonite.Base.Int.{ℤ}
use xenonite.Base.Dict.{Dict}
use xenonite.Api.Core.{Condition, OwnerReference}
use xenonite.Api.ProxmoxProvider.{
  ProxmoxCredentials, TemplateSource, CloudInitConfig, BootstrapConfig,
}
use xenonite.Copy.Memory.{Ref}

-- metav1.ObjectMeta
pub record MetaObject : Type 0 where
  pub name : String
  pub generate_name : String
  pub labels : Ref
  pub annotations : Ref
  pub finalizers : Ref
  pub owner_references : Ref
  pub deletion_timestamp : Ref

-- corev1.NodeSelectorRequirement
pub record RequirementObject : Type 0 where
  pub key : String
  pub operator : String
  pub values : Ref

-- resource.Quantity: an amount, or a pointer to a decimal that holds it. The text that it caches is
-- left out.
pub record QuantityObject : Type 0 where
  pub int_amount : ℤ
  pub dec : Ref

-- corev1.TypedLocalObjectReference
pub record TypedRefObject : Type 0 where
  pub api_group : Ref
  pub kind : String
  pub name : String

pub record ClaimSpecObject : Type 0 where
  pub node_pool_ref : String
  pub requirements : Ref
  pub resources : Ref

pub record ClaimStatusObject : Type 0 where
  pub provider_id : String
  pub node_name : String
  pub capacity : Ref
  pub allocatable : Ref
  pub conditions : Ref

pub record ClaimObject : Type 0 where
  pub metadata : MetaObject
  pub spec : ClaimSpecObject
  pub status : ClaimStatusObject

pub record TemplateSpecObject : Type 0 where
  pub requirements : Ref
  pub resources : Ref

pub record TemplateObject : Type 0 where
  pub labels : Ref
  pub annotations : Ref
  pub spec : TemplateSpecObject

pub record PoolSpecObject : Type 0 where
  pub provider_ref : TypedRefObject
  pub template : TemplateObject
  pub limits : Ref
  pub weight : Ref

pub record PoolStatusObject : Type 0 where
  pub resources : Ref
  pub conditions : Ref

pub record PoolObject : Type 0 where
  pub metadata : MetaObject
  pub spec : PoolSpecObject
  pub status : PoolStatusObject

pub record ProviderSpecObject : Type 0 where
  pub endpoint : String
  pub insecure : Bool
  pub credentials : ProxmoxCredentials
  pub nodes : Ref
  pub pool : String
  pub source_template : TemplateSource
  pub storage : String
  pub network_bridge : String
  pub tags : Ref
  pub cloud_init : CloudInitConfig
  pub bootstrap : BootstrapConfig

pub record ProviderStatusObject : Type 0 where
  pub conditions : Ref

pub record ProviderObject : Type 0 where
  pub metadata : MetaObject
  pub spec : ProviderSpecObject
  pub status : ProviderStatusObject

-- metav1.ListMeta
pub record ListMetaObject : Type 0 where
  pub resource_version : String
  pub remaining_item_count : Ref

pub record ClaimListObject : Type 0 where
  pub metadata : ListMetaObject
  pub items : Ref

pub record PoolListObject : Type 0 where
  pub metadata : ListMetaObject
  pub items : Ref

pub record ProviderListObject : Type 0 where
  pub metadata : ListMetaObject
  pub items : Ref

-- What a reference refers to.
pub data Cell : Type 0 where
  strings : List String → Cell
  string_map : Dict String → Cell
  quantities : List (String × QuantityObject) → Cell
  decimal : ℤ → Cell
  text : String → Cell
  conditions : List Condition → Cell
  requirements : List RequirementObject → Cell
  owners : List OwnerReference → Cell
  time : ℤ → Cell
  number : ℕ → Cell
  claims : List ClaimObject → Cell
  pools : List PoolObject → Cell
  providers : List ProviderObject → Cell

abbrev pub get_strings : Cell → Option (List String)
get_strings (strings x) = some x
get_strings _ = none

abbrev pub get_string_map : Cell → Option (Dict String)
get_string_map (string_map x) = some x
get_string_map _ = none

abbrev pub get_quantities : Cell → Option (List (String × QuantityObject))
get_quantities (quantities x) = some x
get_quantities _ = none

abbrev pub get_decimal : Cell → Option ℤ
get_decimal (decimal x) = some x
get_decimal _ = none

abbrev pub get_text : Cell → Option String
get_text (text x) = some x
get_text _ = none

abbrev pub get_conditions : Cell → Option (List Condition)
get_conditions (conditions x) = some x
get_conditions _ = none

abbrev pub get_requirements : Cell → Option (List RequirementObject)
get_requirements (requirements x) = some x
get_requirements _ = none

abbrev pub get_owners : Cell → Option (List OwnerReference)
get_owners (owners x) = some x
get_owners _ = none

abbrev pub get_time : Cell → Option ℤ
get_time (time x) = some x
get_time _ = none

abbrev pub get_number : Cell → Option ℕ
get_number (number x) = some x
get_number _ = none

abbrev pub get_claims : Cell → Option (List ClaimObject)
get_claims (claims x) = some x
get_claims _ = none

abbrev pub get_pools : Cell → Option (List PoolObject)
get_pools (pools x) = some x
get_pools _ = none

abbrev pub get_providers : Cell → Option (List ProviderObject)
get_providers (providers x) = some x
get_providers _ = none

-- A nil slice or map reads as an empty one.
abbrev pub or_nil : {A : Type 0} → Option (List A) → List A
or_nil none = []
or_nil (some xs) = xs
