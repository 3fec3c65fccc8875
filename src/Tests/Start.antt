-- ===== src/Tests/Start.antt =====
-- The program started from a command line that enables HTTP/2, with a second controller that cannot
-- be set up.
use xenonite.Base.{◌≡◌, refl, true, Option, some, none, [], ◌∷◌, All}
use xenonite.Api.Core.{Error, foreign}
use xenonite.Cmd.Options.{TlsConfig, Flags, default_flags, manager_options}
use xenonite.Cmd.Main.{
  Step, exited, parsed, Outside, main, init, run_manager, set_up_claims, set_up_provisioner,
  perform, fail_by, ◌>>◌,
}
use xenonite.Cmd.Http.{configured, spoken, manager_options-spoken}
use xenonite.Cmd.Plan.{Ran, plan, main-Ran}
use xenonite.Cmd.Namespace.{IsNamed, main-IsNamed}

abbrev pub flags : Flags
flags = record default_flags {
  enable_http2 = true;
  metrics_addr = ":8443";
  webhook_cert_path = "/certs";
}

abbrev refuse : Step → Option Error
refuse (Step.index_field _ _) = some (foreign "indexer conflict")
refuse _ = none

abbrev pub outside : Outside
outside = record { parse = λ _. parsed flags; getenv = λ _. ""; answer = λ _ p. refuse p }

abbrev config : TlsConfig
config = record { next_protos = "h2" ∷ "http/1.1" ∷ [] }

manager_options-spoken_example :
    (configured (manager_options flags).webhook_server.tls_opts config ≡ spoken flags config)
    × (configured (manager_options flags).metrics.tls_opts config ≡ spoken flags config)
manager_options-spoken_example = manager_options-spoken flags config

main-Ran_example : Ran outside [] (plan outside flags) (main outside []).0 (main outside []).1
main-Ran_example = main-Ran outside flags refl

main-IsNamed_example : All (IsNamed outside) (main outside []).1
main-IsNamed_example = main-IsNamed outside

-- It ends with the status 1.
ending : (main outside []).0 ≡ some (exited 1)
unfolding main init run_manager set_up_claims set_up_provisioner perform fail_by ◌>>◌
ending = refl
