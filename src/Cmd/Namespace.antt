-- ===== src/Cmd/Namespace.antt =====
-- What the claims' controller is set up with.
use xenonite.Base.{
  ℕ, ◌≡◌, ◌≢◌, refl, String, Option, none, Option-cases, inl, inr, ◌==◌, eq_iff, Bool-cases, true,
  false, List, [], ◌∷◌, All, All-append,
}
use xenonite.Cmd.Options.{Flags, default_flags, namespace_or_default}
use xenonite.Cmd.Main.{
  Step, Ending, Outside, Parsed, parsed, stopped, claims, provisioner, fail_by, perform, init, main,
  ◌>>◌,
}
use xenonite.Cmd.Plan.{plan, Ran, returned, failed, went_on, main-Ran}

-- The backends and the namespace of a step that sets up the claims' controller.
abbrev pub IsNamed : Outside → Step → Type 0
IsNamed out (Step.complete c) = elim c.reconciler [
  | claims r ↦
      (r.new_provider ≡ none)
      × (r.system_namespace ≢ "")
      × (out.getenv "POD_NAMESPACE" ≢ "" → r.system_namespace ≡ out.getenv "POD_NAMESPACE")
  | provisioner ↦ Unit
]
IsNamed out _ = Unit

pub Ran-All :
    {out : Outside} (P : Step → Type 0) {s ps t : List Step} {end : Option Ending}
    → All P s
    → All P ps
    → Ran out s ps end t
    → All P t
Ran-All P before coming returned = before
Ran-All P {s} before coming (failed {p} e) = All-append P s (p ∷ []) before (coming.0, tt)
Ran-All P {s} before coming (went_on {p} e rest) =
    Ran-All P (All-append P s (p ∷ []) before (coming.0, tt)) coming.1 rest

module _ (out : Outside) where
  given_ne : ◌≢◌ {A = String} "xenonite-system" ""
  given_ne e = let t : false ≡ true = (eq_iff "xenonite-system" "").1 e in cc

  namespace-IsNamed :
      (v : String) → (namespace_or_default v ≢ "") × (v ≢ "" → namespace_or_default v ≡ v)
  unfolding namespace_or_default
  namespace-IsNamed v = elim (Bool-cases (v == "")) [
    | inl t ↦ rw t ((λ e. given_ne e), λ ne. absurd (ne ((eq_iff v "").0 t)))
    | inr n ↦ rw n ((λ e. let t = (eq_iff v "").1 e in cc), λ _. refl)
  ]

  plan-IsNamed : (f : Flags) → All (IsNamed out) (plan out f)
  plan-IsNamed f =
      let named = namespace-IsNamed (out.getenv "POD_NAMESPACE") in
      (tt, (tt, (tt, (tt, ((refl, named.0, named.1), (tt, (tt, (tt, (tt, (tt, tt))))))))))

  stopped-IsNamed :
      (code : ℕ) → out.parse default_flags ≡ stopped code → All (IsNamed out) (main out []).1
  unfolding main init ◌>>◌ fail_by perform
  stopped-IsNamed code e = elim (Option-cases (out.answer [] (Step.add_to_scheme "client-go"))) [
    | inr (_, wrong) ↦ rw wrong (tt, tt)
    | inl nil ↦
        rw (nil, e)
          (elim (Option-cases (
            out.answer (Step.add_to_scheme "client-go" ∷ [])
              (Step.add_to_scheme "core.xenonite.io/v1"))) [
                | inr (_, wrong) ↦ rw wrong (tt, (tt, tt))
                | inl nil' ↦ rw nil' (tt, (tt, tt))
              ])
  ]

  read-IsNamed : (o : Parsed) → out.parse default_flags ≡ o → All (IsNamed out) (main out []).1
  read-IsNamed (parsed f) e = Ran-All (IsNamed out) tt (plan-IsNamed f) (main-Ran out f e)
  read-IsNamed (stopped c) e = stopped-IsNamed c e

  -- Whatever the flags and the answers, the claims' controller is set up with the Proxmox backend
  -- and no other, and with a namespace for Secrets that is not empty, and that is the variable
  -- POD_NAMESPACE where that is not empty.
  pub main-IsNamed : All (IsNamed out) (main out []).1
  main-IsNamed = read-IsNamed (out.parse default_flags) refl
