-- ===== src/Api/Scheme.antt =====
-- api/v1/groupversion_info.go, and the init functions of the three files of types, which register
-- each kind and its list. apimachinery's Scheme and SchemeBuilder are parameters. A type that is
-- registered stands as the name of its struct, which AddKnownTypes takes for the kind.
pub mod Kinds
use xenonite.Base.{String, Option, none, List, [], ◌∷◌, Bool}
use xenonite.Api.Core.{Error}

-- schema.GroupVersion
pub record GroupVersion : Type 0 where
  pub group : String
  pub version : String

-- SchemeGroupVersion, of which GroupVersion is an alias.
abbrev pub scheme_group_version : GroupVersion
scheme_group_version = record { group = "core.xenonite.io"; version = "v1" }

-- What a function that is given the scheme returns, and the scheme as it leaves it.
abbrev pub Registration : Type 0 → Type 0
Registration S = S → Option Error × S

-- apimachinery's Scheme `S` and SchemeBuilder `B`.
pub record Runtime (S B : Type 0) : Type 0 where
  pub new_scheme_builder : Registration S → B
  pub register : B → Registration S → B
  pub run : B → Registration S  -- AddToScheme of a builder
  pub add_to_group_version : S → GroupVersion → S
  pub add_known_types : S → GroupVersion → List String → S
  pub recognizes : S → GroupVersion → String → Bool

module _ {S B : Type 0} (rt : Runtime S B) where
  -- The function that SchemeBuilder is made with.
  unfoldable pub register_group : Registration S
  register_group s = (none, rt.add_to_group_version s scheme_group_version)

  unfoldable pub register_types : List String → Registration S
  register_types types s = (none, rt.add_known_types s scheme_group_version types)

  -- proxmoxprovider_types.go
  unfoldable pub init_provider : B → B
  init_provider b = rt.register b (register_types ("ProxmoxProvider" ∷ "ProxmoxProviderList" ∷ []))

  -- xenonnodeclaim_types.go
  unfoldable pub init_claim : B → B
  init_claim b = rt.register b (register_types ("XenonNodeClaim" ∷ "XenonNodeClaimList" ∷ []))

  -- xenonnodepool_types.go
  unfoldable pub init_pool : B → B
  init_pool b = rt.register b (register_types ("XenonNodePool" ∷ "XenonNodePoolList" ∷ []))

  -- SchemeBuilder once the package is loaded: Go sets the package's variables, then runs the init
  -- functions of its files in the order of their names.
  unfoldable pub scheme_builder : B
  scheme_builder = init_pool (init_claim (init_provider (rt.new_scheme_builder register_group)))

  -- AddToScheme has a pointer to SchemeBuilder for its receiver, so it runs what was registered
  -- after the variable was set.
  unfoldable pub add_to_scheme : Registration S
  add_to_scheme = rt.run scheme_builder
