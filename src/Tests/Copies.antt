-- ===== src/Tests/Copies.antt =====
-- A claim in memory, its copy, and a write to the original's annotations in place.
use xenonite.Base.{◌≡◌, refl, none, some, List, [], ◌∷◌}
use xenonite.Copy.Memory.{at, Copy, return, ◌>>=◌}
use xenonite.Copy.Deep.{IsDeep, copy_ref, ref-IsDeep, both-IsDeep, struct-IsDeep}
use xenonite.Copy.Items.{copy_items}
use xenonite.Copy.Objects.{
  ListMetaObject, get_number, get_decimal, get_text, Cell, get_strings, get_string_map, get_owners,
  get_time, MetaObject, RequirementObject, QuantityObject, TypedRefObject, ClaimObject,
}
use xenonite.Copy.Generated.{Foreign, copy_claim_into, copy_claim_spec_into, copy_claim_status_into}
use xenonite.Copy.Views.{
  view_list_meta, view_meta, view_requirement, view_quantity, view_typed_ref, view_claim,
}
use xenonite.Copy.Copies.{IsDeepForeign}
use xenonite.Copy.Kinds.{AreDeep, generated-AreDeep}

unfoldable copy_meta : MetaObject → Copy Cell MetaObject
copy_meta m = do
  labels ← copy_ref get_string_map Cell.string_map (λ x. x) m.labels
  annotations ← copy_ref get_string_map Cell.string_map (λ x. x) m.annotations
  finalizers ← copy_ref get_strings Cell.strings (λ x. x) m.finalizers
  owner_references ← copy_ref get_owners Cell.owners (λ x. x) m.owner_references
  deletion_timestamp ← copy_ref get_time Cell.time (λ x. x) m.deletion_timestamp
  return (record m {
    labels = labels;
    annotations = annotations;
    finalizers = finalizers;
    owner_references = owner_references;
    deletion_timestamp = deletion_timestamp;
  })

unfoldable copy_requirement : RequirementObject → Copy Cell RequirementObject
copy_requirement r = do
  values ← copy_ref get_strings Cell.strings (λ x. x) r.values
  return (record r { values = values })

unfoldable copy_list_meta : ListMetaObject → Copy Cell ListMetaObject
copy_list_meta m = do
  remaining ← copy_ref get_number Cell.number (λ x. x) m.remaining_item_count
  return (record m { remaining_item_count = remaining })

unfoldable copy_quantity : QuantityObject → Copy Cell QuantityObject
copy_quantity q = do
  dec ← copy_ref get_decimal Cell.decimal (λ x. x) q.dec
  return (record q { dec = dec })

unfoldable copy_typed_ref : TypedRefObject → Copy Cell TypedRefObject
copy_typed_ref r = do
  api_group ← copy_ref get_text Cell.text (λ x. x) r.api_group
  return (record r { api_group = api_group })

abbrev foreign : Foreign
foreign = record {
  object_meta = copy_meta;
  requirement = copy_requirement;
  condition = λ c. c;
  quantity = copy_quantity;
  typed_ref = copy_typed_ref;
  list_meta = copy_list_meta;
}

meta-IsDeep : IsDeep view_meta copy_meta
unfolding copy_meta
meta-IsDeep =
    struct-IsDeep _
      (λ m (l, (a, (f, (o, d)))). record m {
        labels = l;
        annotations = a;
        finalizers = f;
        owner_references = o;
        deletion_timestamp = d;
      })
      _ _ _ (λ _ _. refl) (λ _ _. refl)
      (both-IsDeep _ _ _ _ (ref-IsDeep get_string_map Cell.string_map (λ x. x) (λ _. refl)) (
        both-IsDeep _ _ _ _ (ref-IsDeep get_string_map Cell.string_map (λ x. x) (λ _. refl)) (
          both-IsDeep _ _ _ _ (ref-IsDeep get_strings Cell.strings (λ x. x) (λ _. refl)) (
            both-IsDeep _ _ _ _ (ref-IsDeep get_owners Cell.owners (λ x. x) (λ _. refl))
              (ref-IsDeep get_time Cell.time (λ x. x) (λ _. refl))))))

requirement-IsDeep : IsDeep view_requirement copy_requirement
unfolding copy_requirement
requirement-IsDeep =
    struct-IsDeep _ (λ r v. record r { values = v }) _ _ _ (λ _ _. refl) (λ _ _. refl)
      (ref-IsDeep get_strings Cell.strings (λ x. x) (λ _. refl))

quantity-IsDeep : IsDeep view_quantity copy_quantity
unfolding copy_quantity
quantity-IsDeep =
    struct-IsDeep _ (λ q d. record q { dec = d }) _ _ _ (λ _ _. refl) (λ _ _. refl)
      (ref-IsDeep get_decimal Cell.decimal (λ x. x) (λ _. refl))

typed_ref-IsDeep : IsDeep view_typed_ref copy_typed_ref
unfolding copy_typed_ref
typed_ref-IsDeep =
    struct-IsDeep _ (λ r g. record r { api_group = g }) _ _ _ (λ _ _. refl) (λ _ _. refl)
      (ref-IsDeep get_text Cell.text (λ x. x) (λ _. refl))

list_meta-IsDeep : IsDeep view_list_meta copy_list_meta
unfolding copy_list_meta
list_meta-IsDeep =
    struct-IsDeep _ (λ m n. record m { remaining_item_count = n }) _ _ _ (λ _ _. refl) (λ _ _. refl)
      (ref-IsDeep get_number Cell.number (λ x. x) (λ _. refl))

foreign-IsDeepForeign : IsDeepForeign foreign
foreign-IsDeepForeign = record {
  object_meta = meta-IsDeep;
  requirement = requirement-IsDeep;
  condition = λ c. refl;
  quantity = quantity-IsDeep;
  typed_ref = typed_ref-IsDeep;
  list_meta = list_meta-IsDeep;
}

generated-AreDeep_example : AreDeep foreign
generated-AreDeep_example = generated-AreDeep foreign foreign-IsDeepForeign

-- The annotations lie at 0.
abbrev memory : List Cell
memory = Cell.string_map (("owner", "team-a") ∷ []) ∷ []

abbrev claim : ClaimObject
claim = record {
  metadata = record {
    name = "gpu-1";
    generate_name = "";
    labels = none;
    annotations = some 0;
    finalizers = none;
    owner_references = none;
    deletion_timestamp = none;
  };
  spec = record { node_pool_ref = "gpu"; requirements = none; resources = none };
  status = record {
    provider_id = "";
    node_name = "";
    capacity = none;
    allocatable = none;
    conditions = none;
  };
}

abbrev written : List Cell → List Cell
written [] = []
written (_ ∷ h) = Cell.string_map (("xenonite.io/empty-since", "now") ∷ []) ∷ h

abbrev base : ClaimObject × List Cell
base = copy_claim_into foreign claim memory

-- The base of the patch still reads as before.
base_stays : view_claim (written base.1) base.0 ≡ view_claim memory claim
unfolding copy_claim_into copy_claim_spec_into copy_claim_status_into copy_meta copy_ref copy_items
    at
base_stays = refl
