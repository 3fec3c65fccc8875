-- ===== src/Copy/Kinds.antt =====
-- Every generated DeepCopy and DeepCopyObject is deep.
use xenonite.Base.{◌≡◌, refl, subst, sym, Option, none, some, List}
use xenonite.Copy.Memory.{Copy}
use xenonite.Copy.Deep.{IsDeep, IsCopied, plain-IsDeep}
use xenonite.Copy.Items.{view_pointer, deep_copy-IsDeep}
use xenonite.Copy.Objects.{Cell}
use xenonite.Copy.Generated.{
  Foreign, copy_bootstrap_config_into, copy_cloud_init_config_into, copy_credentials_into,
  copy_secret_key_ref_into, copy_template_source_into,
}
use xenonite.Copy.Pointers.{
  object_or_nil, object_of, deep_copy_bootstrap_config, deep_copy_cloud_init_config,
  deep_copy_credentials, deep_copy_secret_key_ref, deep_copy_template_source, deep_copy_claim_spec,
  deep_copy_claim_status, deep_copy_claim, deep_copy_claim_list, deep_copy_template_spec,
  deep_copy_template, deep_copy_pool_spec, deep_copy_pool_status, deep_copy_pool,
  deep_copy_pool_list, deep_copy_provider_spec, deep_copy_provider_status, deep_copy_provider,
  deep_copy_provider_list, deep_copy_claim_object, deep_copy_claim_list_object,
  deep_copy_pool_object, deep_copy_pool_list_object, deep_copy_provider_object,
  deep_copy_provider_list_object,
}
use xenonite.Copy.Views.{
  view_plain, view_claim_spec, view_claim_status, view_claim, view_claim_list, view_template_spec,
  view_template, view_pool_spec, view_pool_status, view_pool, view_pool_list, view_provider_spec,
  view_provider_status, view_provider, view_provider_list,
}
use xenonite.Copy.Copies.{
  IsDeepForeign, claim_spec-IsDeep, claim_status-IsDeep, claim-IsDeep, claim_list-IsDeep,
  template_spec-IsDeep, template-IsDeep, pool_spec-IsDeep, pool_status-IsDeep, pool-IsDeep,
  pool_list-IsDeep, provider_spec-IsDeep, provider_status-IsDeep, provider-IsDeep,
  provider_list-IsDeep,
}

-- Of each type.
pub record AreDeep (k : Foreign) : Type 0 where
  pub bootstrap_config : IsDeep (view_pointer view_plain) deep_copy_bootstrap_config
  pub cloud_init_config : IsDeep (view_pointer view_plain) deep_copy_cloud_init_config
  pub credentials : IsDeep (view_pointer view_plain) deep_copy_credentials
  pub secret_key_ref : IsDeep (view_pointer view_plain) deep_copy_secret_key_ref
  pub template_source : IsDeep (view_pointer view_plain) deep_copy_template_source
  pub claim_spec : IsDeep (view_pointer view_claim_spec) (deep_copy_claim_spec k)
  pub claim_status : IsDeep (view_pointer view_claim_status) (deep_copy_claim_status k)
  pub claim : IsDeep (view_pointer view_claim) (deep_copy_claim k)
  pub claim_list : IsDeep (view_pointer view_claim_list) (deep_copy_claim_list k)
  pub template_spec : IsDeep (view_pointer view_template_spec) (deep_copy_template_spec k)
  pub template : IsDeep (view_pointer view_template) (deep_copy_template k)
  pub pool_spec : IsDeep (view_pointer view_pool_spec) (deep_copy_pool_spec k)
  pub pool_status : IsDeep (view_pointer view_pool_status) (deep_copy_pool_status k)
  pub pool : IsDeep (view_pointer view_pool) (deep_copy_pool k)
  pub pool_list : IsDeep (view_pointer view_pool_list) (deep_copy_pool_list k)
  pub provider_spec : IsDeep (view_pointer view_provider_spec) (deep_copy_provider_spec k)
  pub provider_status : IsDeep (view_pointer view_provider_status) (deep_copy_provider_status k)
  pub provider : IsDeep (view_pointer view_provider) (deep_copy_provider k)
  pub provider_list : IsDeep (view_pointer view_provider_list) (deep_copy_provider_list k)
  pub claim_object : IsDeep (view_pointer view_claim) (deep_copy_claim_object k)
  pub claim_list_object : IsDeep (view_pointer view_claim_list) (deep_copy_claim_list_object k)
  pub pool_object : IsDeep (view_pointer view_pool) (deep_copy_pool_object k)
  pub pool_list_object : IsDeep (view_pointer view_pool_list) (deep_copy_pool_list_object k)
  pub provider_object : IsDeep (view_pointer view_provider) (deep_copy_provider_object k)
  pub provider_list_object :
      IsDeep (view_pointer view_provider_list) (deep_copy_provider_list_object k)

or_nil_same :
    {A : Type 0} (o : Option A) (h : List Cell)
    → ◌≡◌ {A = Option A × List Cell} (object_or_nil o h) (o, h)
or_nil_same none h = refl
or_nil_same (some c) h = refl

object_same : {A : Type 0} (copy : Copy Cell (Option A)) (h : List Cell) → object_of copy h ≡ copy h
unfolding object_of
object_same copy h = or_nil_same (copy h).0 (copy h).1

object-IsDeep :
    {A V : Type 0} (view : List Cell → Option A → Option V) (copy : Option A → Copy Cell (Option A))
    → IsDeep view copy
    → IsDeep view (λ o. object_of (copy o))
object-IsDeep view copy deep = record {
  local = deep.local;
  copies =
      λ h o v e. subst (IsCopied view h v) (sym (object_same (copy o) h)) (deep.copies h o v e);
}

bootstrap_config-IsDeep : IsDeep view_plain copy_bootstrap_config_into
unfolding copy_bootstrap_config_into
bootstrap_config-IsDeep = plain-IsDeep (λ c. c) (λ _. refl)

cloud_init_config-IsDeep : IsDeep view_plain copy_cloud_init_config_into
unfolding copy_cloud_init_config_into
cloud_init_config-IsDeep = plain-IsDeep (λ c. c) (λ _. refl)

credentials-IsDeep : IsDeep view_plain copy_credentials_into
unfolding copy_credentials_into
credentials-IsDeep = plain-IsDeep (λ c. c) (λ _. refl)

secret_key_ref-IsDeep : IsDeep view_plain copy_secret_key_ref_into
unfolding copy_secret_key_ref_into
secret_key_ref-IsDeep = plain-IsDeep (λ c. c) (λ _. refl)

template_source-IsDeep : IsDeep view_plain copy_template_source_into
unfolding copy_template_source_into
template_source-IsDeep = plain-IsDeep (λ c. c) (λ _. refl)

-- The generated DeepCopy of each type, nil or not, and the DeepCopyObject of each kind, reads as the
-- original did when it was made, whatever is written later to any memory but its own, and making
-- it writes nothing that was there. The copies of k8s.io's types are taken to be deep in the same
-- sense.
pub generated-AreDeep : (k : Foreign) → IsDeepForeign k → AreDeep k
generated-AreDeep k deep = record {
  bootstrap_config = deep_copy-IsDeep view_plain _ bootstrap_config-IsDeep;
  cloud_init_config = deep_copy-IsDeep view_plain _ cloud_init_config-IsDeep;
  credentials = deep_copy-IsDeep view_plain _ credentials-IsDeep;
  secret_key_ref = deep_copy-IsDeep view_plain _ secret_key_ref-IsDeep;
  template_source = deep_copy-IsDeep view_plain _ template_source-IsDeep;
  claim_spec = deep_copy-IsDeep view_claim_spec _ (claim_spec-IsDeep k deep);
  claim_status = deep_copy-IsDeep view_claim_status _ (claim_status-IsDeep k deep);
  claim = deep_copy-IsDeep view_claim _ (claim-IsDeep k deep);
  claim_list = deep_copy-IsDeep view_claim_list _ (claim_list-IsDeep k deep);
  template_spec = deep_copy-IsDeep view_template_spec _ (template_spec-IsDeep k deep);
  template = deep_copy-IsDeep view_template _ (template-IsDeep k deep);
  pool_spec = deep_copy-IsDeep view_pool_spec _ (pool_spec-IsDeep k deep);
  pool_status = deep_copy-IsDeep view_pool_status _ (pool_status-IsDeep k deep);
  pool = deep_copy-IsDeep view_pool _ (pool-IsDeep k deep);
  pool_list = deep_copy-IsDeep view_pool_list _ (pool_list-IsDeep k deep);
  provider_spec = deep_copy-IsDeep view_provider_spec _ (provider_spec-IsDeep k deep);
  provider_status = deep_copy-IsDeep view_provider_status _ (provider_status-IsDeep k deep);
  provider = deep_copy-IsDeep view_provider _ (provider-IsDeep k deep);
  provider_list = deep_copy-IsDeep view_provider_list _ (provider_list-IsDeep k deep);
  claim_object = object-IsDeep _ _ (deep_copy-IsDeep view_claim _ (claim-IsDeep k deep));
  claim_list_object =
      object-IsDeep _ _ (deep_copy-IsDeep view_claim_list _ (claim_list-IsDeep k deep));
  pool_object = object-IsDeep _ _ (deep_copy-IsDeep view_pool _ (pool-IsDeep k deep));
  pool_list_object =
      object-IsDeep _ _ (deep_copy-IsDeep view_pool_list _ (pool_list-IsDeep k deep));
  provider_object = object-IsDeep _ _ (deep_copy-IsDeep view_provider _ (provider-IsDeep k deep));
  provider_list_object =
      object-IsDeep _ _ (deep_copy-IsDeep view_provider_list _ (provider_list-IsDeep k deep));
}
