-- ===== src/Tests/Registration.antt =====
-- The API group added to a scheme that is the test for its kinds.
use xenonite.Base.{
  ◌≡◌, refl, ap, String, ◌==◌, eq_iff, none, List, [], Bool, true, false, ◌&&◌, ◌||◌, any, any_iff,
  Any, ◌↔◌, ◌⊎◌, inl, inr,
}
use xenonite.Api.Scheme.{
  GroupVersion, scheme_group_version, Registration, Runtime, register_group, register_types,
  init_provider, init_claim, init_pool, scheme_builder, add_to_scheme,
}
use xenonite.Api.Scheme.Kinds.{Knows, IsRuntime, IsOf, kinds, continue, add_to_scheme-Knows}
use xenonite.Cmd.Known.{AreKnown, main-AreKnown}
use xenonite.Cmd.Main.{main}
use xenonite.Tests.Start.{flags, outside}

abbrev Scheme : Type 0
Scheme = GroupVersion → String → Bool

abbrev is_version : GroupVersion → GroupVersion → Bool
is_version a b = (a.group == b.group) && (a.version == b.version)

abbrev runtime : Runtime Scheme (Registration Scheme)
runtime = record {
  new_scheme_builder = λ f. f;
  register = λ b f s. continue (b s) f;
  run = λ b. b;
  add_to_group_version = λ s gv gv' k. s gv' k || (is_version gv' gv && (k == "WatchEvent"));
  add_known_types = λ s gv types gv' k. s gv' k || (is_version gv' gv && any (λ t. k == t) types);
  recognizes = λ s. s;
}

and_iff : (a b : Bool) → ((a && b) ≡ true) ↔ ((a ≡ true) × (b ≡ true))
and_iff true b = (λ e. (refl, e), λ h. h.1)
and_iff false b = (λ e. (e, cc), λ h. h.0)

or_iff : (a b : Bool) → ((a || b) ≡ true) ↔ ((a ≡ true) ⊎ (b ≡ true))
or_iff true b = (λ e. inl refl, λ h. refl)
or_iff false b = (λ e. inr e, λ h. elim h [ inl e ↦ cc | inr e ↦ e ])

is_version_iff : (a b : GroupVersion) → (is_version a b ≡ true) ↔ (a ≡ b)
is_version_iff a b = (
  λ e.
      let (g, v) = (and_iff (a.group == b.group) (a.version == b.version)).0 e in
      let same_group = (eq_iff a.group b.group).0 g in
      let same_version = (eq_iff a.version b.version).0 v in cc,
  λ e. (and_iff (a.group == b.group) (a.version == b.version)).1 (
    (eq_iff a.group b.group).1 (ap (λ x. x.group) e),
    (eq_iff a.version b.version).1 (ap (λ x. x.version) e),
  ),
)

types_iff :
    (k : String) (types : List String) → (any (λ t. k == t) types ≡ true) ↔ Any (λ t. k ≡ t) types
types_iff k types = any_iff (λ t. k == t) (λ t. k ≡ t) types (λ t. eq_iff k t)

runtime-IsRuntime : IsRuntime runtime
runtime-IsRuntime = record {
  run-new = λ f s. refl;
  run-register = λ b f s. refl;
  known = λ s gv types gv' k.
      let either = or_iff (s gv' k) (is_version gv' gv && any (λ t. k == t) types) in
      let both = and_iff (is_version gv' gv) (any (λ t. k == t) types) in
      (
        λ e. elim (either.0 e) [
          | inl old ↦ inl old
          | inr new ↦
              inr ((is_version_iff gv' gv).0 (both.0 new).0, (types_iff k types).0 (both.0 new).1)
        ],
        λ h. elim h [
          | inl old ↦ either.1 (inl old)
          | inr (v, one) ↦
              either.1 (inr (both.1 ((is_version_iff gv' gv).1 v, (types_iff k types).1 one)))
        ],
      );
}

abbrev no_kinds : Scheme
no_kinds _ _ = false

claims_known : (add_to_scheme runtime no_kinds).1 scheme_group_version "XenonNodeClaim" ≡ true
unfolding add_to_scheme scheme_builder init_pool init_claim init_provider register_types
    register_group
claims_known = refl

nodes_unknown : (add_to_scheme runtime no_kinds).1 scheme_group_version "Node" ≡ false
unfolding add_to_scheme scheme_builder init_pool init_claim init_provider register_types
    register_group
nodes_unknown = refl

add_to_scheme-Knows_example :
    ((add_to_scheme runtime no_kinds).0 ≡ none)
    × ((gv : GroupVersion) (k : String)
        → Knows runtime (add_to_scheme runtime no_kinds).1 gv k ↔ (
            Knows runtime (runtime.add_to_group_version no_kinds scheme_group_version) gv k
            ⊎ IsOf kinds gv k))
add_to_scheme-Knows_example = add_to_scheme-Knows runtime runtime-IsRuntime no_kinds

-- A client-go whose kinds the small scheme leaves out.
abbrev core_kinds : Registration Scheme
core_kinds s = (none, s)

main-AreKnown_example : AreKnown runtime core_kinds no_kinds (main outside []).1
main-AreKnown_example =
    main-AreKnown runtime core_kinds outside no_kinds runtime-IsRuntime flags refl
