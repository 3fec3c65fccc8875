-- ===== src/Copy/Generated.antt =====
-- api/v1/zz_generated.deepcopy.go: DeepCopyInto of the custom resources. Those of k8s.io's own
-- types are parameters. `*out = *in` is the record that the fields are then replaced in.
use xenonite.Base.{String, List, [], ◌∷◌}
use xenonite.Api.Core.{Condition}
use xenonite.Api.ProxmoxProvider.{
  BootstrapConfig, CloudInitConfig, ProxmoxCredentials, SecretKeyRef, TemplateSource,
}
use xenonite.Copy.Memory.{Ref, Copy, return, ◌>>=◌}
use xenonite.Copy.Deep.{copy_ref}
use xenonite.Copy.Items.{copy_items}
use xenonite.Copy.Objects.{
  Cell, get_strings, get_string_map, get_quantities, get_conditions, get_requirements, get_number,
  MetaObject, RequirementObject, QuantityObject, TypedRefObject, ClaimSpecObject, ClaimStatusObject,
  ClaimObject, TemplateSpecObject, TemplateObject, PoolSpecObject, PoolStatusObject, PoolObject,
  ClaimListObject, PoolListObject, ProviderListObject, ListMetaObject, get_claims, get_pools,
  get_providers, ProviderSpecObject, ProviderStatusObject, ProviderObject,
}

-- DeepCopyInto of k8s.io's types, and Quantity.DeepCopy.
pub record Foreign : Type 0 where
  pub object_meta : MetaObject → Copy Cell MetaObject
  pub requirement : RequirementObject → Copy Cell RequirementObject
  pub condition : Condition → Condition
  pub quantity : QuantityObject → Copy Cell QuantityObject
  pub typed_ref : TypedRefObject → Copy Cell TypedRefObject
  pub list_meta : ListMetaObject → Copy Cell ListMetaObject

abbrev pub each_condition : Foreign → List Condition → List Condition
each_condition k [] = []
each_condition k (c ∷ cs) = k.condition c ∷ each_condition k cs

-- (*out)[key] = val.DeepCopy()
abbrev pub copy_entry : Foreign → String × QuantityObject → Copy Cell (String × QuantityObject)
copy_entry k (key, val) = do val' ← k.quantity val; return (key, val')

abbrev pub copy_resources : Foreign → Ref → Copy Cell Ref
copy_resources k = copy_items (copy_entry k) get_quantities Cell.quantities

abbrev pub copy_conditions : Foreign → Ref → Copy Cell Ref
copy_conditions k = copy_ref get_conditions Cell.conditions (each_condition k)

abbrev pub copy_requirements : Foreign → Ref → Copy Cell Ref
copy_requirements k = copy_items k.requirement get_requirements Cell.requirements

abbrev pub copy_string_map : Ref → Copy Cell Ref
copy_string_map = copy_ref get_string_map Cell.string_map (λ m. m)

abbrev pub copy_strings : Ref → Copy Cell Ref
copy_strings = copy_ref get_strings Cell.strings (λ xs. xs)

module _ (k : Foreign) where
  unfoldable pub copy_claim_spec_into : ClaimSpecObject → Copy Cell ClaimSpecObject
  copy_claim_spec_into s = do
    requirements ← copy_requirements k s.requirements
    resources ← copy_resources k s.resources
    return (record s { requirements = requirements; resources = resources })

  unfoldable pub copy_claim_status_into : ClaimStatusObject → Copy Cell ClaimStatusObject
  copy_claim_status_into s = do
    capacity ← copy_resources k s.capacity
    allocatable ← copy_resources k s.allocatable
    conditions ← copy_conditions k s.conditions
    return (record s { capacity = capacity; allocatable = allocatable; conditions = conditions })

  unfoldable pub copy_claim_into : ClaimObject → Copy Cell ClaimObject
  copy_claim_into c = do
    metadata ← k.object_meta c.metadata
    spec ← copy_claim_spec_into c.spec
    status ← copy_claim_status_into c.status
    return (record c { metadata = metadata; spec = spec; status = status })

  unfoldable pub copy_template_spec_into : TemplateSpecObject → Copy Cell TemplateSpecObject
  copy_template_spec_into s = do
    requirements ← copy_requirements k s.requirements
    resources ← copy_resources k s.resources
    return (record s { requirements = requirements; resources = resources })

  unfoldable pub copy_template_into : TemplateObject → Copy Cell TemplateObject
  copy_template_into t = do
    labels ← copy_string_map t.labels
    annotations ← copy_string_map t.annotations
    spec ← copy_template_spec_into t.spec
    return (record t { labels = labels; annotations = annotations; spec = spec })

  unfoldable pub copy_pool_spec_into : PoolSpecObject → Copy Cell PoolSpecObject
  copy_pool_spec_into s = do
    provider_ref ← k.typed_ref s.provider_ref
    template ← copy_template_into s.template
    limits ← copy_resources k s.limits
    weight ← copy_ref get_number Cell.number (λ n. n) s.weight
    return (record s {
      provider_ref = provider_ref;
      template = template;
      limits = limits;
      weight = weight;
    })

  unfoldable pub copy_pool_status_into : PoolStatusObject → Copy Cell PoolStatusObject
  copy_pool_status_into s = do
    resources ← copy_resources k s.resources
    conditions ← copy_conditions k s.conditions
    return (record s { resources = resources; conditions = conditions })

  unfoldable pub copy_pool_into : PoolObject → Copy Cell PoolObject
  copy_pool_into p = do
    metadata ← k.object_meta p.metadata
    spec ← copy_pool_spec_into p.spec
    status ← copy_pool_status_into p.status
    return (record p { metadata = metadata; spec = spec; status = status })

  unfoldable pub copy_provider_spec_into : ProviderSpecObject → Copy Cell ProviderSpecObject
  copy_provider_spec_into s = do
    nodes ← copy_strings s.nodes
    tags ← copy_strings s.tags
    return (record s { nodes = nodes; tags = tags })

  unfoldable pub copy_provider_status_into : ProviderStatusObject → Copy Cell ProviderStatusObject
  copy_provider_status_into s = do
    conditions ← copy_conditions k s.conditions
    return (record s { conditions = conditions })

  unfoldable pub copy_provider_into : ProviderObject → Copy Cell ProviderObject
  copy_provider_into p = do
    metadata ← k.object_meta p.metadata
    spec ← copy_provider_spec_into p.spec
    status ← copy_provider_status_into p.status
    return (record p { metadata = metadata; spec = spec; status = status })

  unfoldable pub copy_claim_list_into : ClaimListObject → Copy Cell ClaimListObject
  copy_claim_list_into l = do
    metadata ← k.list_meta l.metadata
    items ← copy_items copy_claim_into get_claims Cell.claims l.items
    return (record l { metadata = metadata; items = items })

  unfoldable pub copy_pool_list_into : PoolListObject → Copy Cell PoolListObject
  copy_pool_list_into l = do
    metadata ← k.list_meta l.metadata
    items ← copy_items copy_pool_into get_pools Cell.pools l.items
    return (record l { metadata = metadata; items = items })

  unfoldable pub copy_provider_list_into : ProviderListObject → Copy Cell ProviderListObject
  copy_provider_list_into l = do
    metadata ← k.list_meta l.metadata
    items ← copy_items copy_provider_into get_providers Cell.providers l.items
    return (record l { metadata = metadata; items = items })

-- The structs without references.
unfoldable pub copy_bootstrap_config_into : BootstrapConfig → Copy Cell BootstrapConfig
copy_bootstrap_config_into c = return (record c { token_secret_ref = c.token_secret_ref })

unfoldable pub copy_cloud_init_config_into : CloudInitConfig → Copy Cell CloudInitConfig
copy_cloud_init_config_into c = return c

unfoldable pub copy_credentials_into : ProxmoxCredentials → Copy Cell ProxmoxCredentials
copy_credentials_into c = return c

unfoldable pub copy_secret_key_ref_into : SecretKeyRef → Copy Cell SecretKeyRef
copy_secret_key_ref_into r = return r

unfoldable pub copy_template_source_into : TemplateSource → Copy Cell TemplateSource
copy_template_source_into t = return t
