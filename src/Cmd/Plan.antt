-- ===== src/Cmd/Plan.antt =====
-- The order of the program's steps, and where it ends when one of them fails.
use xenonite.Base.{
  ◌≡◌, refl, sym, subst, Option, Option-cases, inl, inr, none, some, List, [], ◌∷◌, ◌++◌,
}
use xenonite.Api.Core.{Error}
use xenonite.Cmd.Options.{Flags, default_flags, manager_options, namespace_or_default}
use xenonite.Cmd.Main.{
  Step, Ending, Steps, Outside, parsed, exited, panicked, after, ended, exit_one, fail_by, perform,
  claims_controller, pools_controller, set_up_claims, set_up_provisioner, init, run_manager, main,
  ◌>>◌,
}

-- The steps in their order.
abbrev pub plan : Outside → Flags → List Step
plan out f =
    Step.add_to_scheme "client-go"
    ∷ Step.add_to_scheme "core.xenonite.io/v1"
    ∷ Step.get_config
    ∷ Step.new_manager (manager_options f)
    ∷ Step.complete (
        claims_controller out (record {
          new_provider = none;
          system_namespace = namespace_or_default (out.getenv "POD_NAMESPACE");
        }))
    ∷ Step.index_field "Pod" "spec.nodeName"
    ∷ Step.complete (pools_controller out)
    ∷ Step.add_healthz_check "healthz"
    ∷ Step.add_readyz_check "readyz"
    ∷ Step.start_manager
    ∷ []

-- How the process ends when a step fails.
abbrev pub ending_of : Step → Error → Ending
ending_of (Step.add_to_scheme _) e = panicked e
ending_of _ e = exited 1

-- The steps are performed up to the first that fails; without one the program returns.
pub data Ran (out : Outside) : List Step → List Step → Option Ending → List Step → Type 0 where
  returned : {s : List Step} → Ran out s [] none s
  failed :
      {s : List Step} {p : Step} {ps : List Step} {e : Error}
      → out.answer s p ≡ some e
      → Ran out s (p ∷ ps) (some (ending_of p e)) (s ++ p ∷ [])
  went_on :
      {s : List Step} {p : Step} {ps : List Step} {end : Option Ending} {t : List Step}
      → out.answer s p ≡ none
      → Ran out (s ++ p ∷ []) ps end t
      → Ran out s (p ∷ ps) end t

-- The rest of the steps runs from wherever it starts.
abbrev Runs : Outside → List Step → Steps Ending → Type 0
Runs out ps m = (s : List Step) → Ran out s ps (m s).0 (m s).1

module _ (out : Outside) where
  step-Runs :
      (p : Step) (end : Error → Ending) (ps : List Step) (n : Steps Ending)
      → ((e : Error) → end e ≡ ending_of p e)
      → Runs out ps n
      → Runs out (p ∷ ps) (fail_by end (perform out p) >> n)
  unfolding ◌>>◌ fail_by perform
  step-Runs p end ps n same rest s = elim (Option-cases (out.answer s p)) [
    | inl nil ↦ rw nil (went_on nil (rest (s ++ p ∷ [])))
    | inr (e, wrong) ↦ rw (wrong, same e) (failed wrong)
  ]

  Runs-same :
      (ps : List Step) (m n : Steps Ending)
      → ((s : List Step) → m s ≡ n s)
      → Runs out ps n
      → Runs out ps m
  Runs-same ps m n same runs s = subst (λ r. Ran out s ps r.0 r.1) (sym (same s)) (runs s)

  last-Runs :
      (p : Step) (end : Error → Ending)
      → ((e : Error) → end e ≡ ending_of p e)
      → Runs out (p ∷ []) (fail_by end (perform out p))
  unfolding fail_by perform
  last-Runs p end same s = elim (Option-cases (out.answer s p)) [
    | inl nil ↦ rw nil (went_on nil returned)
    | inr (e, wrong) ↦ rw (wrong, same e) (failed wrong)
  ]

module _ (n : Steps Ending) where
  after-nested :
      (f : Error → Ending) (e : Option Error) (s : List Step) (b : Steps Error)
      → after (ended f (after e s b).0) (after e s b).1 n ≡ after (ended f e) s (fail_by f b >> n)
  unfolding ◌>>◌ fail_by
  after-nested f none s b = refl
  after-nested f (some e) s b = refl

  -- An error of a part is an error of the whole.
  fail_by-then :
      (f : Error → Ending) (a b : Steps Error) (s : List Step)
      → (fail_by f (a >> b) >> n) s ≡ (fail_by f a >> (fail_by f b >> n)) s
  unfolding ◌>>◌ fail_by
  fail_by-then f a b s = after-nested f (a s).0 (a s).1 b

  after-then :
      (e : Option Ending) (s : List Step) (b : Steps Ending)
      → after (after e s b).0 (after e s b).1 n ≡ after e s (b >> n)
  unfolding ◌>>◌
  after-then none s b = refl
  after-then (some e) s b = refl

  then_assoc : (a b : Steps Ending) (s : List Step) → ((a >> b) >> n) s ≡ (a >> (b >> n)) s
  unfolding ◌>>◌
  then_assoc a b s = after-then (a s).0 (a s).1 b

module _ (out : Outside) (f : Flags) where
  run_manager-Runs :
      Runs out
        (Step.get_config
          ∷ Step.new_manager (manager_options f)
          ∷ Step.complete (
              claims_controller out (record {
                new_provider = none;
                system_namespace = namespace_or_default (out.getenv "POD_NAMESPACE");
              }))
          ∷ Step.index_field "Pod" "spec.nodeName"
          ∷ Step.complete (pools_controller out)
          ∷ Step.add_healthz_check "healthz"
          ∷ Step.add_readyz_check "readyz"
          ∷ Step.start_manager
          ∷ [])
        (run_manager out f)
  unfolding run_manager set_up_claims set_up_provisioner
  run_manager-Runs =
      step-Runs out _ _ _ _ (λ _. refl)
        (step-Runs out _ _ _ _ (λ _. refl)
          (step-Runs out _ _ _ _ (λ _. refl)
            (Runs-same out _ _ _ (fail_by-then _ exit_one _ _) (
              step-Runs out _ _ _ _ (λ _. refl)
                (step-Runs out _ _ _ _ (λ _. refl)
                  (step-Runs out _ _ _ _ (λ _. refl)
                    (step-Runs out _ _ _ _ (λ _. refl) (last-Runs out _ _ (λ _. refl)))))))))

-- Whatever fails, the program performs its ten steps in their order up to the first that is
-- answered with an error, and then ends with the status 1, or with a panic where it is a scheme; it
-- returns only when all were answered without one. So the manager is started last, after both
-- controllers, the index and the two checks are set up.
pub main-Ran :
    (out : Outside) (f : Flags)
    → out.parse default_flags ≡ parsed f
    → Ran out [] (plan out f) (main out []).0 (main out []).1
unfolding main init
main-Ran out f read = rw read (
    Runs-same out (plan out f) _ _ (then_assoc _ _ _)
      (step-Runs out _ _ _ _ (λ _. refl)
        (step-Runs out _ _ _ _ (λ _. refl) (run_manager-Runs out f)))
      [])
