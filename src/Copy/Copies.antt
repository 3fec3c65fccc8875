-- ===== src/Copy/Copies.antt =====
-- The generated copies are deep.
use xenonite.Base.{◌≡◌, refl, some, List, [], ◌∷◌}
use xenonite.Api.Core.{Condition}
use xenonite.Copy.Deep.{IsDeep, view_ref, copy_ref, ref-IsDeep, both-IsDeep, struct-IsDeep}
use xenonite.Copy.Items.{view_items, items-IsDeep}
use xenonite.Copy.Objects.{
  get_claims, get_pools, get_providers, Cell, get_strings, get_string_map, get_quantities,
  get_conditions, get_requirements, get_number,
}
use xenonite.Base.{ap}
use xenonite.Copy.Generated.{
  copy_claim_list_into, copy_pool_list_into, copy_provider_list_into, Foreign, each_condition,
  copy_entry, copy_resources, copy_conditions, copy_requirements, copy_string_map, copy_strings,
  copy_claim_spec_into, copy_claim_status_into, copy_claim_into, copy_template_spec_into,
  copy_template_into, copy_pool_spec_into, copy_pool_status_into, copy_pool_into,
  copy_provider_spec_into, copy_provider_status_into, copy_provider_into,
}
use xenonite.Copy.Views.{
  view_list_meta, view_claim_list, view_pool_list, view_provider_list, view_meta, view_requirement,
  view_quantity, view_entry, view_resources, view_typed_ref, view_claim_spec, view_claim_status,
  view_claim, view_template_spec, view_template, view_pool_spec, view_pool_status, view_pool,
  view_provider_spec, view_provider_status, view_provider,
}

-- What the copies of k8s.io's types are taken to do: those with references are deep, and a
-- Condition, which has none, is the same.
pub record IsDeepForeign (k : Foreign) : Type 0 where
  pub object_meta : IsDeep view_meta k.object_meta
  pub requirement : IsDeep view_requirement k.requirement
  pub condition : (c : Condition) → k.condition c ≡ c
  pub quantity : IsDeep view_quantity k.quantity
  pub typed_ref : IsDeep view_typed_ref k.typed_ref
  pub list_meta : IsDeep view_list_meta k.list_meta

module _ (k : Foreign) (deep : IsDeepForeign k) where
  same_conditions : (cs : List Condition) → each_condition k cs ≡ cs
  same_conditions [] = refl
  same_conditions (c ∷ cs) = rw (deep.condition c, same_conditions cs) refl

  entry-IsDeep : IsDeep view_entry (copy_entry k)
  entry-IsDeep =
      struct-IsDeep _ (λ e val. (e.0, val)) _ _ _ (λ _ _. refl) (λ _ _. refl) deep.quantity

  resources-IsDeep : IsDeep view_resources (copy_resources k)
  resources-IsDeep =
      items-IsDeep view_entry (copy_entry k) get_quantities Cell.quantities entry-IsDeep (λ _. refl)

  conditions-IsDeep : IsDeep (view_ref get_conditions) (copy_conditions k)
  conditions-IsDeep =
      ref-IsDeep get_conditions Cell.conditions (each_condition k)
        (λ cs. ap some (same_conditions cs))

  requirements-IsDeep : IsDeep (view_items view_requirement get_requirements) (copy_requirements k)
  requirements-IsDeep =
      items-IsDeep view_requirement k.requirement get_requirements Cell.requirements
        deep.requirement (λ _. refl)

  string_map-IsDeep : IsDeep (view_ref get_string_map) copy_string_map
  string_map-IsDeep = ref-IsDeep get_string_map Cell.string_map (λ m. m) (λ _. refl)

  strings-IsDeep : IsDeep (view_ref get_strings) copy_strings
  strings-IsDeep = ref-IsDeep get_strings Cell.strings (λ xs. xs) (λ _. refl)

  pub claim_spec-IsDeep : IsDeep view_claim_spec (copy_claim_spec_into k)
  unfolding copy_claim_spec_into
  claim_spec-IsDeep =
      struct-IsDeep _ (λ s (reqs, res). record s { requirements = reqs; resources = res }) _ _ _
        (λ _ _. refl) (λ _ _. refl) (both-IsDeep _ _ _ _ requirements-IsDeep resources-IsDeep)

  pub claim_status-IsDeep : IsDeep view_claim_status (copy_claim_status_into k)
  unfolding copy_claim_status_into
  claim_status-IsDeep =
      struct-IsDeep _
        (λ s (cap, (all, conds)). record s {
          capacity = cap;
          allocatable = all;
          conditions = conds;
        })
        _ _ _ (λ _ _. refl) (λ _ _. refl)
        (both-IsDeep _ _ _ _ resources-IsDeep
          (both-IsDeep _ _ _ _ resources-IsDeep conditions-IsDeep))

  pub claim-IsDeep : IsDeep view_claim (copy_claim_into k)
  unfolding copy_claim_into
  claim-IsDeep =
      struct-IsDeep _
        (λ s (m, (spec, status)). record s { metadata = m; spec = spec; status = status }) _ _ _
        (λ _ _. refl) (λ _ _. refl)
        (both-IsDeep _ _ _ _ deep.object_meta
          (both-IsDeep _ _ _ _ claim_spec-IsDeep claim_status-IsDeep))

  pub template_spec-IsDeep : IsDeep view_template_spec (copy_template_spec_into k)
  unfolding copy_template_spec_into
  template_spec-IsDeep =
      struct-IsDeep _ (λ s (reqs, res). record s { requirements = reqs; resources = res }) _ _ _
        (λ _ _. refl) (λ _ _. refl) (both-IsDeep _ _ _ _ requirements-IsDeep resources-IsDeep)

  pub template-IsDeep : IsDeep view_template (copy_template_into k)
  unfolding copy_template_into
  template-IsDeep =
      struct-IsDeep _ (λ s (l, (a, spec)). record s { labels = l; annotations = a; spec = spec }) _
        _ _ (λ _ _. refl) (λ _ _. refl)
        (both-IsDeep _ _ _ _ string_map-IsDeep
          (both-IsDeep _ _ _ _ string_map-IsDeep template_spec-IsDeep))

  weight-IsDeep : IsDeep (view_ref get_number) (copy_ref get_number Cell.number (λ n. n))
  weight-IsDeep = ref-IsDeep get_number Cell.number (λ n. n) (λ _. refl)

  pub pool_spec-IsDeep : IsDeep view_pool_spec (copy_pool_spec_into k)
  unfolding copy_pool_spec_into
  pool_spec-IsDeep =
      struct-IsDeep _
        (λ s (r, (t, (l, w))). record s { provider_ref = r; template = t; limits = l; weight = w })
        _ _ _ (λ _ _. refl) (λ _ _. refl)
        (both-IsDeep _ _ _ _ deep.typed_ref (
          both-IsDeep _ _ _ _ template-IsDeep (both-IsDeep _ _ _ _ resources-IsDeep weight-IsDeep)))

  pub pool_status-IsDeep : IsDeep view_pool_status (copy_pool_status_into k)
  unfolding copy_pool_status_into
  pool_status-IsDeep =
      struct-IsDeep _ (λ s (res, conds). record s { resources = res; conditions = conds }) _ _ _
        (λ _ _. refl) (λ _ _. refl) (both-IsDeep _ _ _ _ resources-IsDeep conditions-IsDeep)

  pub pool-IsDeep : IsDeep view_pool (copy_pool_into k)
  unfolding copy_pool_into
  pool-IsDeep =
      struct-IsDeep _
        (λ s (m, (spec, status)). record s { metadata = m; spec = spec; status = status }) _ _ _
        (λ _ _. refl) (λ _ _. refl)
        (both-IsDeep _ _ _ _ deep.object_meta
          (both-IsDeep _ _ _ _ pool_spec-IsDeep pool_status-IsDeep))

  pub provider_spec-IsDeep : IsDeep view_provider_spec (copy_provider_spec_into k)
  unfolding copy_provider_spec_into
  provider_spec-IsDeep =
      struct-IsDeep _ (λ s (n, t). record s { nodes = n; tags = t }) _ _ _ (λ _ _. refl)
        (λ _ _. refl) (both-IsDeep _ _ _ _ strings-IsDeep strings-IsDeep)

  pub provider_status-IsDeep : IsDeep view_provider_status (copy_provider_status_into k)
  unfolding copy_provider_status_into
  provider_status-IsDeep =
      struct-IsDeep _ (λ s conds. record s { conditions = conds }) _ _ _ (λ _ _. refl) (λ _ _. refl)
        (conditions-IsDeep)

  pub provider-IsDeep : IsDeep view_provider (copy_provider_into k)
  unfolding copy_provider_into
  provider-IsDeep =
      struct-IsDeep _
        (λ s (m, (spec, status)). record s { metadata = m; spec = spec; status = status }) _ _ _
        (λ _ _. refl) (λ _ _. refl)
        (both-IsDeep _ _ _ _ deep.object_meta
          (both-IsDeep _ _ _ _ provider_spec-IsDeep provider_status-IsDeep))

  pub claim_list-IsDeep : IsDeep view_claim_list (copy_claim_list_into k)
  unfolding copy_claim_list_into
  claim_list-IsDeep =
      struct-IsDeep _ (λ l (m, xs). record l { metadata = m; items = xs }) _ _ _ (λ _ _. refl)
        (λ _ _. refl)
        (both-IsDeep _ _ _ _ deep.list_meta (
          items-IsDeep view_claim (copy_claim_into k) get_claims Cell.claims claim-IsDeep
            (λ _. refl)))

  pub pool_list-IsDeep : IsDeep view_pool_list (copy_pool_list_into k)
  unfolding copy_pool_list_into
  pool_list-IsDeep =
      struct-IsDeep _ (λ l (m, xs). record l { metadata = m; items = xs }) _ _ _ (λ _ _. refl)
        (λ _ _. refl)
        (both-IsDeep _ _ _ _ deep.list_meta
          (items-IsDeep view_pool (copy_pool_into k) get_pools Cell.pools pool-IsDeep (λ _. refl)))

  pub provider_list-IsDeep : IsDeep view_provider_list (copy_provider_list_into k)
  unfolding copy_provider_list_into
  provider_list-IsDeep =
      struct-IsDeep _ (λ l (m, xs). record l { metadata = m; items = xs }) _ _ _ (λ _ _. refl)
        (λ _ _. refl)
        (both-IsDeep _ _ _ _ deep.list_meta (
          items-IsDeep view_provider (copy_provider_into k) get_providers Cell.providers
            provider-IsDeep (λ _. refl)))
