-- ===== src/Copy/Views.antt =====
-- What the objects in memory read as: the values that the rest of the development works on.
use xenonite.Base.{ℕ, String, Option, none, some, List}
use xenonite.Base.Int.{ℤ}
use xenonite.Api.Core.{NodeSelectorRequirement, ObjectMeta, ResourceList}
use xenonite.Api.NodeClaim.{XenonNodeClaimSpec, XenonNodeClaimStatus, XenonNodeClaim}
use xenonite.Api.NodePool.{
  ProviderRef, XenonNodeClaimTemplateSpec, XenonNodeClaimTemplate, XenonNodePoolSpec,
  XenonNodePoolStatus, XenonNodePool,
}
use xenonite.Api.ProxmoxProvider.{ProxmoxProviderSpec, ProxmoxProviderStatus, ProxmoxProvider}
use xenonite.Copy.Memory.{Ref}
use xenonite.Copy.Deep.{view_ref, view_both, view_struct}
use xenonite.Copy.Items.{view_items}
use xenonite.Copy.Objects.{
  Cell, get_strings, get_string_map, get_quantities, get_conditions, get_requirements, get_owners,
  get_time, get_number, get_decimal, get_text, or_nil, QuantityObject, TypedRefObject, MetaObject,
  RequirementObject, ClaimSpecObject, ClaimStatusObject, ClaimObject, TemplateSpecObject,
  TemplateObject, PoolSpecObject, PoolStatusObject, PoolObject, ClaimListObject, PoolListObject,
  ProviderListObject, ListMetaObject, get_claims, get_pools, get_providers, ProviderSpecObject,
  ProviderStatusObject, ProviderObject,
}

abbrev pub view_meta : List Cell → MetaObject → Option ObjectMeta
view_meta =
    view_struct
      (λ m. (m.labels, (m.annotations, (m.finalizers, (m.owner_references, m.deletion_timestamp)))))
      (λ m (labels, (annotations, (finalizers, (owner_references, deleted)))). record {
        name = m.name;
        generate_name = m.generate_name;
        labels = or_nil labels;
        annotations = or_nil annotations;
        finalizers = or_nil finalizers;
        owner_references = or_nil owner_references;
        deletion_timestamp = deleted;
      })
      (view_both (view_ref get_string_map) (
        view_both (view_ref get_string_map)
          (view_both (view_ref get_strings) (view_both (view_ref get_owners) (view_ref get_time)))))

abbrev pub view_requirement : List Cell → RequirementObject → Option NodeSelectorRequirement
view_requirement =
    view_struct (λ r. r.values)
      (λ r values. record { key = r.key; operator = r.operator; values = or_nil values })
      (view_ref get_strings)

-- A decimal is the value where there is one.
abbrev quantity_of : ℤ → Option ℤ → ℤ
quantity_of amount none = amount
quantity_of amount (some d) = d

abbrev pub view_quantity : List Cell → QuantityObject → Option ℤ
view_quantity =
    view_struct (λ q. q.dec) (λ q dec. quantity_of q.int_amount dec) (view_ref get_decimal)

abbrev pub view_entry : List Cell → String × QuantityObject → Option (String × ℤ)
view_entry = view_struct (λ e. e.1) (λ e value. (e.0, value)) view_quantity

abbrev pub view_resources : List Cell → Ref → Option (Option ResourceList)
view_resources = view_items view_entry get_quantities

abbrev pub view_typed_ref : List Cell → TypedRefObject → Option ProviderRef
view_typed_ref =
    view_struct (λ r. r.api_group)
      (λ r api_group. record { api_group = api_group; kind = r.kind; name = r.name })
      (view_ref get_text)

abbrev pub view_claim_spec : List Cell → ClaimSpecObject → Option XenonNodeClaimSpec
view_claim_spec =
    view_struct (λ s. (s.requirements, s.resources))
      (λ s (requirements, resources). record {
        node_pool_ref = s.node_pool_ref;
        requirements = or_nil requirements;
        resources = or_nil resources;
      })
      (view_both (view_items view_requirement get_requirements) view_resources)

abbrev pub view_claim_status : List Cell → ClaimStatusObject → Option XenonNodeClaimStatus
view_claim_status =
    view_struct (λ s. (s.capacity, (s.allocatable, s.conditions)))
      (λ s (capacity, (allocatable, conditions)). record {
        provider_id = s.provider_id;
        node_name = s.node_name;
        capacity = or_nil capacity;
        allocatable = or_nil allocatable;
        conditions = or_nil conditions;
      })
      (view_both view_resources (view_both view_resources (view_ref get_conditions)))

abbrev pub view_claim : List Cell → ClaimObject → Option XenonNodeClaim
view_claim =
    view_struct (λ c. (c.metadata, (c.spec, c.status)))
      (λ c (metadata, (spec, status)). record { metadata = metadata; spec = spec; status = status })
      (view_both view_meta (view_both view_claim_spec view_claim_status))

abbrev pub view_template_spec : List Cell → TemplateSpecObject → Option XenonNodeClaimTemplateSpec
view_template_spec =
    view_struct (λ s. (s.requirements, s.resources))
      (λ s (requirements, resources). record {
        requirements = or_nil requirements;
        resources = or_nil resources;
      })
      (view_both (view_items view_requirement get_requirements) view_resources)

abbrev pub view_template : List Cell → TemplateObject → Option XenonNodeClaimTemplate
view_template =
    view_struct (λ t. (t.labels, (t.annotations, t.spec)))
      (λ t (labels, (annotations, spec)). record {
        labels = or_nil labels;
        annotations = or_nil annotations;
        spec = spec;
      })
      (view_both (view_ref get_string_map) (view_both (view_ref get_string_map) view_template_spec))

abbrev pub view_pool_spec : List Cell → PoolSpecObject → Option XenonNodePoolSpec
view_pool_spec =
    view_struct (λ s. (s.provider_ref, (s.template, (s.limits, s.weight))))
      (λ s (provider_ref, (template, (limits, weight))). record {
        provider_ref = provider_ref;
        template = template;
        limits = or_nil limits;
        weight = weight;
      })
      (view_both view_typed_ref
        (view_both view_template (view_both view_resources (view_ref get_number))))

abbrev pub view_pool_status : List Cell → PoolStatusObject → Option XenonNodePoolStatus
view_pool_status =
    view_struct (λ s. (s.resources, s.conditions))
      (λ s (resources, conditions). record {
        resources = or_nil resources;
        conditions = or_nil conditions;
      })
      (view_both view_resources (view_ref get_conditions))

abbrev pub view_pool : List Cell → PoolObject → Option XenonNodePool
view_pool =
    view_struct (λ p. (p.metadata, (p.spec, p.status)))
      (λ p (metadata, (spec, status)). record { metadata = metadata; spec = spec; status = status })
      (view_both view_meta (view_both view_pool_spec view_pool_status))

abbrev pub view_provider_spec : List Cell → ProviderSpecObject → Option ProxmoxProviderSpec
view_provider_spec =
    view_struct (λ s. (s.nodes, s.tags))
      (λ s (nodes, tags). record {
        endpoint = s.endpoint;
        insecure = s.insecure;
        credentials = s.credentials;
        nodes = or_nil nodes;
        pool = s.pool;
        source_template = s.source_template;
        storage = s.storage;
        network_bridge = s.network_bridge;
        tags = or_nil tags;
        cloud_init = s.cloud_init;
        bootstrap = s.bootstrap;
      })
      (view_both (view_ref get_strings) (view_ref get_strings))

abbrev pub view_provider_status : List Cell → ProviderStatusObject → Option ProxmoxProviderStatus
view_provider_status =
    view_struct (λ s. s.conditions) (λ s conditions. record { conditions = or_nil conditions })
      (view_ref get_conditions)

abbrev pub view_provider : List Cell → ProviderObject → Option ProxmoxProvider
view_provider =
    view_struct (λ p. (p.metadata, (p.spec, p.status)))
      (λ p (metadata, (spec, status)). record { metadata = metadata; spec = spec; status = status })
      (view_both view_meta (view_both view_provider_spec view_provider_status))

-- metav1.ListMeta as a value.
pub record ListMeta : Type 0 where
  pub resource_version : String
  pub remaining_item_count : Option ℕ

abbrev pub view_list_meta : List Cell → ListMetaObject → Option ListMeta
view_list_meta =
    view_struct (λ m. m.remaining_item_count)
      (λ m remaining. record {
        resource_version = m.resource_version;
        remaining_item_count = remaining;
      })
      (view_ref get_number)

abbrev pub view_claim_list : List Cell → ClaimListObject → Option (ListMeta × List XenonNodeClaim)
view_claim_list =
    view_struct (λ l. (l.metadata, l.items)) (λ l (metadata, items). (metadata, or_nil items))
      (view_both view_list_meta (view_items view_claim get_claims))

abbrev pub view_pool_list : List Cell → PoolListObject → Option (ListMeta × List XenonNodePool)
view_pool_list =
    view_struct (λ l. (l.metadata, l.items)) (λ l (metadata, items). (metadata, or_nil items))
      (view_both view_list_meta (view_items view_pool get_pools))

abbrev pub view_provider_list :
    List Cell → ProviderListObject → Option (ListMeta × List ProxmoxProvider)
view_provider_list =
    view_struct (λ l. (l.metadata, l.items)) (λ l (metadata, items). (metadata, or_nil items))
      (view_both view_list_meta (view_items view_provider get_providers))

-- A struct without references is its own value.
abbrev pub view_plain : {A : Type 0} → List Cell → A → Option A
view_plain h a = some a
