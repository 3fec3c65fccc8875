-- ===== src/Cmd/Main.antt =====
-- cmd/main.go: `init` and `main`, and the two controllers' SetupWithManager. What a step does is
-- outside of this repository: it returns nil or an error.
use xenonite.Base.{String, ℕ, Option, none, some, List, [], ◌∷◌, ◌++◌}
use xenonite.Api.Core.{Error}
use xenonite.Claim.Reconcile.{XenonNodeClaimReconciler}
use xenonite.Provisioner.Watches.{Object, pool_for_pod, pool_for_claim, pool_for_node}
use xenonite.Cmd.Options.{
  Flags, default_flags, ManagerOptions, manager_options, namespace_or_default,
}

pub data Reconciler : Type 0 where
  claims : XenonNodeClaimReconciler → Reconciler
  provisioner : Reconciler

pub record Watch : Type 0 where
  pub kind : String
  pub map_func : Object → List String

-- What ctrl.NewControllerManagedBy(mgr) is told before Complete.
pub record Controller : Type 0 where
  pub for_kind : String
  pub watches : List Watch
  pub named : String
  pub reconciler : Reconciler

pub data Step : Type 0 where
  add_to_scheme : (group : String) → Step
  get_config : Step
  new_manager : ManagerOptions → Step
  index_field : (kind field : String) → Step
  complete : Controller → Step
  add_healthz_check add_readyz_check : (name : String) → Step
  start_manager : Step

pub data Ending : Type 0 where
  exited : ℕ → Ending
  panicked : Error → Ending

-- flag.Parse: the values of the flags, or the end of the process.
pub data Parsed : Type 0 where
  parsed : Flags → Parsed
  stopped : ℕ → Parsed

pub record Outside : Type 0 where
  pub parse : Flags → Parsed
  pub getenv : String → String
  pub answer : List Step → Step → Option Error

-- Steps until the first that fails, after those before.
abbrev pub Steps : Type 0 → Type 0
Steps E = List Step → Option E × List Step

abbrev pub after : {E : Type 0} → Option E → List Step → Steps E → Option E × List Step
after none s n = n s
after (some e) s n = (some e, s)

infixl 5 ◌>>◌
unfoldable pub ◌>>◌ : {E : Type 0} → Steps E → Steps E → Steps E
◌>>◌ m n s = let (e, s') = m s in after e s' n

abbrev pub ended : {E F : Type 0} → (E → F) → Option E → Option F
ended f none = none
ended f (some e) = some (f e)

-- if err := …; err != nil { …; os.Exit(1) }, and utilruntime.Must(…)
unfoldable pub fail_by : {E F : Type 0} → (E → F) → Steps E → Steps F
fail_by f m s = let (e, s') = m s in (ended f e, s')

abbrev pub exit_one : Error → Ending
exit_one _ = exited 1

module _ (out : Outside) where
  unfoldable pub perform : Step → Steps Error
  perform p s = (out.answer s p, s ++ p ∷ [])

  abbrev pub claims_controller : XenonNodeClaimReconciler → Controller
  claims_controller r = record {
    for_kind = "XenonNodeClaim";
    watches = [];
    named = "xenonnodeclaim";
    reconciler = claims r;
  }

  -- XenonNodeClaimReconciler.SetupWithManager
  unfoldable pub set_up_claims : XenonNodeClaimReconciler → Steps Error
  set_up_claims r = perform (complete (claims_controller r))

  abbrev pub pools_controller : Controller
  pools_controller = record {
    for_kind = "XenonNodePool";
    watches =
        record { kind = "Pod"; map_func = pool_for_pod }
        ∷ record { kind = "XenonNodeClaim"; map_func = pool_for_claim }
        ∷ record { kind = "Node"; map_func = pool_for_node }
        ∷ [];
    named = "provisioner";
    reconciler = provisioner;
  }

  -- ProvisionerReconciler.SetupWithManager
  unfoldable pub set_up_provisioner : Steps Error
  set_up_provisioner =
      perform (index_field "Pod" "spec.nodeName") >> perform (complete pools_controller)

  unfoldable pub init : Steps Ending
  init =
      fail_by panicked (perform (add_to_scheme "client-go"))
      >> fail_by panicked (perform (add_to_scheme "core.xenonite.io/v1"))

  -- main, from the options on.
  unfoldable pub run_manager : Flags → Steps Ending
  run_manager f = do
    fail_by exit_one (perform get_config)
    fail_by exit_one (perform (new_manager (manager_options f)))
    fail_by exit_one (
        set_up_claims (record {
          new_provider = none;
          system_namespace = namespace_or_default (out.getenv "POD_NAMESPACE");
        }))
    fail_by exit_one set_up_provisioner
    fail_by exit_one (perform (add_healthz_check "healthz"))
    fail_by exit_one (perform (add_readyz_check "readyz"))
    fail_by exit_one (perform start_manager)

  abbrev pub with_flags : Parsed → Steps Ending
  with_flags (parsed f) = run_manager f
  with_flags (stopped code) = λ s. (some (exited code), s)

  -- The program.
  unfoldable pub main : Steps Ending
  main = init >> with_flags (out.parse default_flags)
