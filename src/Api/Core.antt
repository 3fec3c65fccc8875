-- ===== src/Api/Core.antt =====
-- The fields of k8s.io/api/core/v1 and k8s.io/apimachinery types that internal/controller and
-- api/v1 use. A quantity is what `Value()` returns of it; a time is nanoseconds since 1970.
use xenonite.Base.{String, Option, none, some, List, Bool, true, false}
use xenonite.Base.Int.{ℤ}
use xenonite.Base.Dict.{Dict}

-- An error, by the call that made it; `fmt` renders its text.
pub data Arg : Type 0 where
  str : String → Arg
  int : ℤ → Arg

pub data Error : Type 0 where
  foreign : String → Error  -- made outside of this repository
  errorf : String → List Arg → Error  -- fmt.Errorf(format, args...)
  wrapf : String → List Arg → Error → Error  -- fmt.Errorf(format + ": %w", args..., err)

-- A text that a status condition shows: a literal, or `err.Error()`.
pub data Message : Type 0 where
  text : String → Message
  error_text : Error → Message

pub record Condition : Type 0 where
  pub type : String
  pub status : String
  pub reason : String
  pub message : Message

pub record OwnerReference : Type 0 where
  pub kind : String
  pub name : String

pub record ObjectMeta : Type 0 where
  pub name : String
  pub generate_name : String
  pub labels : Dict String
  pub annotations : Dict String
  pub finalizers : List String
  pub owner_references : List OwnerReference
  pub deletion_timestamp : Option ℤ  -- `none` is nil, and the zero time

-- t.IsZero()
abbrev pub is_zero : Option ℤ → Bool
is_zero none = true
is_zero (some _) = false

abbrev pub empty_meta : ObjectMeta
empty_meta = record {
  name = "";
  generate_name = "";
  labels = List.[];
  annotations = List.[];
  finalizers = List.[];
  owner_references = List.[];
  deletion_timestamp = none;
}

-- v1.ResourceList, by `Quantity.Value()`.
abbrev pub ResourceList : Type 0
ResourceList = Dict ℤ

pub record NodeSelectorRequirement : Type 0 where
  pub key : String
  pub operator : String
  pub values : List String

pub record NodeSelectorTerm : Type 0 where
  pub match_expressions : List NodeSelectorRequirement

-- spec.affinity.nodeAffinity.requiredDuringSchedulingIgnoredDuringExecution, where none of the
-- three pointers is nil.
pub record PodSpec : Type 0 where
  pub node_name : String
  pub node_selector : Dict String
  pub required_terms : Option (List NodeSelectorTerm)

pub record PodStatus : Type 0 where
  pub phase : String
  pub conditions : List Condition

pub record Pod : Type 0 where
  pub metadata : ObjectMeta
  pub spec : PodSpec
  pub status : PodStatus

pub record Node : Type 0 where
  pub metadata : ObjectMeta
  pub conditions : List Condition

pub record Secret : Type 0 where
  pub entries : Dict String

abbrev pub condition_true : String
condition_true = "True"

abbrev pub condition_false : String
condition_false = "False"

-- ctrl.Result
pub record CtrlResult : Type 0 where
  pub requeue_after : ℤ
