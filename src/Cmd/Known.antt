-- ===== src/Cmd/Known.antt =====
-- The kinds of the controllers, and the scheme that the manager is made with.
use xenonite.Base.{
  String, ◌==◌, ◌≡◌, refl, sym, subst, append_assoc, append-nil, Option, List, [], ◌∷◌, ◌++◌, inl,
  inr, if◌then◌else◌,
}
use xenonite.Api.Scheme.{Registration, Runtime, scheme_group_version, add_to_scheme}
use xenonite.Api.Scheme.Kinds.{Knows, IsRuntime, add_to_scheme-Knows}
use xenonite.Cmd.Options.{Flags, default_flags}
use xenonite.Cmd.Main.{Step, Ending, Outside, parsed, main}
use xenonite.Cmd.Plan.{Ran, plan, main-Ran}

module _ {S B : Type 0} (rt : Runtime S B) (client_go : Registration S) where
  -- The package's scheme after AddToScheme of the group: of xenonite's or of client-go's.
  abbrev pub added : String → S → S
  added group s = if group == "core.xenonite.io/v1" then (add_to_scheme rt s).1 else (client_go s).1

  -- Each controller that is completed is for a kind that the scheme knows by then, from the scheme
  -- `s` on.
  abbrev pub AreKnown : S → List Step → Type 0
  AreKnown s [] = Unit
  AreKnown s (Step.add_to_scheme group ∷ ps) = AreKnown (added group s) ps
  AreKnown s (Step.complete c ∷ ps) = Knows rt s scheme_group_version c.for_kind × AreKnown s ps
  AreKnown s (_ ∷ ps) = AreKnown s ps

  AreKnown-before : (s : S) (ps qs : List Step) → AreKnown s (ps ++ qs) → AreKnown s ps
  AreKnown-before s [] qs k = tt
  AreKnown-before s (Step.add_to_scheme group ∷ ps) qs k = AreKnown-before (added group s) ps qs k
  AreKnown-before s (Step.complete c ∷ ps) qs (known, k) = (known, AreKnown-before s ps qs k)
  AreKnown-before s (Step.get_config ∷ ps) qs k = AreKnown-before s ps qs k
  AreKnown-before s (Step.new_manager _ ∷ ps) qs k = AreKnown-before s ps qs k
  AreKnown-before s (Step.index_field _ _ ∷ ps) qs k = AreKnown-before s ps qs k
  AreKnown-before s (Step.add_healthz_check _ ∷ ps) qs k = AreKnown-before s ps qs k
  AreKnown-before s (Step.add_readyz_check _ ∷ ps) qs k = AreKnown-before s ps qs k
  AreKnown-before s (Step.start_manager ∷ ps) qs k = AreKnown-before s ps qs k

  module _ (out : Outside) (s : S) where
    -- What is performed is a beginning of what was planned.
    Ran-AreKnown :
        {before ps : List Step} {end : Option Ending} {t : List Step}
        → Ran out before ps end t
        → AreKnown s (before ++ ps)
        → AreKnown s t
    Ran-AreKnown {before = before} Ran.returned k = subst (AreKnown s) (append-nil before) k
    Ran-AreKnown {before = before} {ps = p ∷ ps} (Ran.failed _) k =
        AreKnown-before s (before ++ p ∷ []) ps
          (subst (AreKnown s) (sym (append_assoc before (p ∷ []) ps)) k)
    Ran-AreKnown {before = before} {ps = p ∷ ps} (Ran.went_on _ rest) k =
        Ran-AreKnown rest (subst (AreKnown s) (sym (append_assoc before (p ∷ []) ps)) k)

    plan-AreKnown : IsRuntime rt → (f : Flags) → AreKnown s (plan out f)
    plan-AreKnown law f =
        let known = (add_to_scheme-Knows rt law (client_go s).1).1 scheme_group_version in
        (
          (known "XenonNodeClaim").1 (inr (refl, inr (inr (inl refl)))),
          ((known "XenonNodePool").1 (inr (refl, inr (inr (inr (inr (inl refl)))))), tt),
        )

    -- Whatever the flags that the command line gives and the answers, each controller that main
    -- sets up is for a kind that the package's scheme knows under core.xenonite.io/v1 by then, as
    -- the calls of AddToScheme that main made before have left it, from whatever it knew at first.
    -- Scheme and SchemeBuilder are as documented.
    pub main-AreKnown :
        IsRuntime rt → (f : Flags) → out.parse default_flags ≡ parsed f → AreKnown s (main out []).1
    main-AreKnown law f e = Ran-AreKnown (main-Ran out f e) (plan-AreKnown law f)
