-- ===== src/Copy/Pointers.antt =====
-- api/v1/zz_generated.deepcopy.go: DeepCopy of each type, and DeepCopyObject of the kinds.
use xenonite.Base.{Option, none, some}
use xenonite.Copy.Memory.{Copy, return, ◌>>=◌}
use xenonite.Copy.Items.{deep_copy}
use xenonite.Api.ProxmoxProvider.{
  BootstrapConfig, CloudInitConfig, ProxmoxCredentials, SecretKeyRef, TemplateSource,
}
use xenonite.Copy.Objects.{
  Cell, ClaimSpecObject, ClaimStatusObject, ClaimObject, ClaimListObject, TemplateSpecObject,
  TemplateObject, PoolSpecObject, PoolStatusObject, PoolObject, PoolListObject, ProviderSpecObject,
  ProviderStatusObject, ProviderObject, ProviderListObject,
}
use xenonite.Copy.Generated.{
  Foreign, copy_bootstrap_config_into, copy_cloud_init_config_into, copy_credentials_into,
  copy_secret_key_ref_into, copy_template_source_into, copy_claim_spec_into, copy_claim_status_into,
  copy_claim_into, copy_claim_list_into, copy_template_spec_into, copy_template_into,
  copy_pool_spec_into, copy_pool_status_into, copy_pool_into, copy_pool_list_into,
  copy_provider_spec_into, copy_provider_status_into, copy_provider_into, copy_provider_list_into,
}

-- if c := in.DeepCopy(); c != nil { return c }; return nil
abbrev pub object_or_nil : {A : Type 0} → Option A → Copy Cell (Option A)
object_or_nil none = return none
object_or_nil (some c) = return (some c)

unfoldable pub object_of : {A : Type 0} → Copy Cell (Option A) → Copy Cell (Option A)
object_of copy = do c ← copy; object_or_nil c

abbrev pub deep_copy_bootstrap_config : Option BootstrapConfig → Copy Cell (Option BootstrapConfig)
deep_copy_bootstrap_config = deep_copy copy_bootstrap_config_into

abbrev pub deep_copy_cloud_init_config : Option CloudInitConfig → Copy Cell (Option CloudInitConfig)
deep_copy_cloud_init_config = deep_copy copy_cloud_init_config_into

abbrev pub deep_copy_credentials : Option ProxmoxCredentials → Copy Cell (Option ProxmoxCredentials)
deep_copy_credentials = deep_copy copy_credentials_into

abbrev pub deep_copy_secret_key_ref : Option SecretKeyRef → Copy Cell (Option SecretKeyRef)
deep_copy_secret_key_ref = deep_copy copy_secret_key_ref_into

abbrev pub deep_copy_template_source : Option TemplateSource → Copy Cell (Option TemplateSource)
deep_copy_template_source = deep_copy copy_template_source_into

module _ (k : Foreign) where
  abbrev pub deep_copy_claim_spec : Option ClaimSpecObject → Copy Cell (Option ClaimSpecObject)
  deep_copy_claim_spec = deep_copy (copy_claim_spec_into k)

  abbrev pub deep_copy_claim_status :
      Option ClaimStatusObject → Copy Cell (Option ClaimStatusObject)
  deep_copy_claim_status = deep_copy (copy_claim_status_into k)

  abbrev pub deep_copy_claim : Option ClaimObject → Copy Cell (Option ClaimObject)
  deep_copy_claim = deep_copy (copy_claim_into k)

  abbrev pub deep_copy_claim_list : Option ClaimListObject → Copy Cell (Option ClaimListObject)
  deep_copy_claim_list = deep_copy (copy_claim_list_into k)

  abbrev pub deep_copy_template_spec :
      Option TemplateSpecObject → Copy Cell (Option TemplateSpecObject)
  deep_copy_template_spec = deep_copy (copy_template_spec_into k)

  abbrev pub deep_copy_template : Option TemplateObject → Copy Cell (Option TemplateObject)
  deep_copy_template = deep_copy (copy_template_into k)

  abbrev pub deep_copy_pool_spec : Option PoolSpecObject → Copy Cell (Option PoolSpecObject)
  deep_copy_pool_spec = deep_copy (copy_pool_spec_into k)

  abbrev pub deep_copy_pool_status : Option PoolStatusObject → Copy Cell (Option PoolStatusObject)
  deep_copy_pool_status = deep_copy (copy_pool_status_into k)

  abbrev pub deep_copy_pool : Option PoolObject → Copy Cell (Option PoolObject)
  deep_copy_pool = deep_copy (copy_pool_into k)

  abbrev pub deep_copy_pool_list : Option PoolListObject → Copy Cell (Option PoolListObject)
  deep_copy_pool_list = deep_copy (copy_pool_list_into k)

  abbrev pub deep_copy_provider_spec :
      Option ProviderSpecObject → Copy Cell (Option ProviderSpecObject)
  deep_copy_provider_spec = deep_copy (copy_provider_spec_into k)

  abbrev pub deep_copy_provider_status :
      Option ProviderStatusObject → Copy Cell (Option ProviderStatusObject)
  deep_copy_provider_status = deep_copy (copy_provider_status_into k)

  abbrev pub deep_copy_provider : Option ProviderObject → Copy Cell (Option ProviderObject)
  deep_copy_provider = deep_copy (copy_provider_into k)

  abbrev pub deep_copy_provider_list :
      Option ProviderListObject → Copy Cell (Option ProviderListObject)
  deep_copy_provider_list = deep_copy (copy_provider_list_into k)

  abbrev pub deep_copy_claim_object : Option ClaimObject → Copy Cell (Option ClaimObject)
  deep_copy_claim_object c = object_of (deep_copy_claim c)

  abbrev pub deep_copy_claim_list_object :
      Option ClaimListObject → Copy Cell (Option ClaimListObject)
  deep_copy_claim_list_object c = object_of (deep_copy_claim_list c)

  abbrev pub deep_copy_pool_object : Option PoolObject → Copy Cell (Option PoolObject)
  deep_copy_pool_object c = object_of (deep_copy_pool c)

  abbrev pub deep_copy_pool_list_object : Option PoolListObject → Copy Cell (Option PoolListObject)
  deep_copy_pool_list_object c = object_of (deep_copy_pool_list c)

  abbrev pub deep_copy_provider_object : Option ProviderObject → Copy Cell (Option ProviderObject)
  deep_copy_provider_object c = object_of (deep_copy_provider c)

  abbrev pub deep_copy_provider_list_object :
      Option ProviderListObject → Copy Cell (Option ProviderListObject)
  deep_copy_provider_list_object c = object_of (deep_copy_provider_list c)
