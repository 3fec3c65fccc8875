-- ===== src/Api/Scheme/Kinds.antt =====
-- The kinds that the scheme knows once the API group is added to it.
use xenonite.Base.{
  ◌≡◌, refl, String, Option, none, some, List, [], ◌∷◌, ◌++◌, Any, Any-left, Any-right, Any-append,
  true, ◌↔◌, ◌⊎◌, inl, inr,
}
use xenonite.Api.Core.{Error}
use xenonite.Api.Scheme.{
  GroupVersion, scheme_group_version, Registration, Runtime, register_group, register_types,
  init_provider, init_claim, init_pool, scheme_builder, add_to_scheme,
}

-- Go on with a function where there is no error.
abbrev pub continue : {S : Type 0} → Option Error × S → Registration S → Option Error × S
continue (none, s) f = f s
continue (some e, s) f = (some e, s)

module _ {S B : Type 0} (rt : Runtime S B) where
  abbrev pub Knows : S → GroupVersion → String → Type 0
  Knows s gv k = rt.recognizes s gv k ≡ true

  -- What apimachinery documents: a builder's AddToScheme runs its functions in order up to the
  -- first error, and AddKnownTypes adds the types' names to the kinds of the version.
  pub record IsRuntime : Type 0 where
    pub run-new : (f : Registration S) (s : S) → rt.run (rt.new_scheme_builder f) s ≡ f s
    pub run-register :
        (b : B) (f : Registration S) (s : S) → rt.run (rt.register b f) s ≡ continue (rt.run b s) f
    pub known :
        (s : S) (gv : GroupVersion) (types : List String) (gv' : GroupVersion) (k : String)
        → Knows (rt.add_known_types s gv types) gv' k
          ↔ (Knows s gv' k ⊎ ((gv' ≡ gv) × Any (λ t. k ≡ t) types))

-- The types of each file.
abbrev provider_types : List String
provider_types = "ProxmoxProvider" ∷ "ProxmoxProviderList" ∷ []

abbrev claim_types : List String
claim_types = "XenonNodeClaim" ∷ "XenonNodeClaimList" ∷ []

abbrev pool_types : List String
pool_types = "XenonNodePool" ∷ "XenonNodePoolList" ∷ []

-- The kinds of the API group.
abbrev pub kinds : List String
kinds =
    "ProxmoxProvider" ∷ "ProxmoxProviderList" ∷ "XenonNodeClaim" ∷ "XenonNodeClaimList"
    ∷ "XenonNodePool" ∷ "XenonNodePoolList" ∷ []

abbrev pub IsOf : List String → GroupVersion → String → Type 0
IsOf types gv k = (gv ≡ scheme_group_version) × Any (λ t. k ≡ t) types

module _ {S B : Type 0} (rt : Runtime S B) (law : IsRuntime rt) where
  registered : S → List String → S
  registered s types = rt.add_known_types s scheme_group_version types

  run-register_types :
      (b : B) (types : List String) (s t : S)
      → rt.run b s ≡ (none, t)
      → rt.run (rt.register b (register_types rt types)) s ≡ (none, registered t types)
  unfolding register_types registered
  run-register_types b types s t e = rw (law.run-register b (register_types rt types) s, e) refl

  run-scheme_builder :
      (s : S)
      → add_to_scheme rt s ≡ (
        none,
        registered
            (registered
              (registered (rt.add_to_group_version s scheme_group_version) provider_types)
              claim_types)
            pool_types,
      )
  unfolding add_to_scheme scheme_builder init_pool init_claim init_provider register_group
  run-scheme_builder s =
      run-register_types _ _ s _
        (run-register_types _ _ s _ (run-register_types _ _ s _ (law.run-new _ s)))

  known-registered :
      (s : S) (before types : List String) (gv : GroupVersion) (k : String) {Old : Type 0}
      → Knows rt s gv k ↔ (Old ⊎ IsOf before gv k)
      → Knows rt (registered s types) gv k ↔ (Old ⊎ IsOf (before ++ types) gv k)
  unfolding registered
  known-registered s before types gv k old =
      let new = law.known s scheme_group_version types gv k in
      (
        λ now. elim (new.0 now) [
          | inr (e, here) ↦ inr (e, Any-right (λ t. k ≡ t) before types here)
          | inl then_ ↦ elim (old.0 then_) [
            | inl o ↦ inl o
            | inr (e, there) ↦ inr (e, Any-left (λ t. k ≡ t) before types there)
          ]
        ],
        λ any. elim any [
          | inl o ↦ new.1 (inl (old.1 (inl o)))
          | inr (e, one) ↦ elim (Any-append (λ t. k ≡ t) before types one) [
            | inl there ↦ new.1 (inl (old.1 (inr (e, there))))
            | inr here ↦ new.1 (inr (e, here))
          ]
        ],
      )

  -- AddToScheme returns no error, and the scheme then knows exactly the kinds that it knew once
  -- the group's version was added, and the six kinds of the API group under core.xenonite.io/v1.
  -- Scheme and SchemeBuilder are as documented.
  pub add_to_scheme-Knows :
      (s : S)
      → ((add_to_scheme rt s).0 ≡ none)
        × ((gv : GroupVersion) (k : String)
            → Knows rt (add_to_scheme rt s).1 gv k
              ↔ (Knows rt (rt.add_to_group_version s scheme_group_version) gv k ⊎ IsOf kinds gv k))
  add_to_scheme-Knows s = rw (run-scheme_builder s) (
    refl,
    λ gv k. known-registered _ (provider_types ++ claim_types) _ gv k (
        known-registered _ provider_types _ gv k (
          known-registered _ [] _ gv k
            (λ h. inl h, λ h. elim h [ inl o ↦ o | inr (_, none_left) ↦ absurd none_left ]))),
  )
