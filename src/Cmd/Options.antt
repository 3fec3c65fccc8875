-- ===== src/Cmd/Options.antt =====
-- cmd/main.go: the flags, and the options that they give. A server is what it is made with.
use xenonite.Base.{
  String, ◌==◌, Bool, true, false, not, Option, none, some, List, [], ◌∷◌, if◌then◌else◌,
}

-- The field of tls.Config that the options set.
pub record TlsConfig : Type 0 where
  pub next_protos : List String

abbrev pub TlsOption : Type 0
TlsOption = TlsConfig → TlsConfig

pub record Flags : Type 0 where
  pub metrics_addr : String
  pub probe_addr : String
  pub enable_leader_election : Bool
  pub secure_metrics : Bool
  pub webhook_cert_path : String
  pub webhook_cert_name : String
  pub webhook_cert_key : String
  pub metrics_cert_path : String
  pub metrics_cert_name : String
  pub metrics_cert_key : String
  pub enable_http2 : Bool

abbrev pub default_flags : Flags
default_flags = record {
  metrics_addr = "0";
  probe_addr = ":8081";
  enable_leader_election = false;
  secure_metrics = true;
  webhook_cert_path = "";
  webhook_cert_name = "tls.crt";
  webhook_cert_key = "tls.key";
  metrics_cert_path = "";
  metrics_cert_name = "tls.crt";
  metrics_cert_key = "tls.key";
  enable_http2 = false;
}

unfoldable pub disable_http2 : TlsOption
disable_http2 c = record c { next_protos = "http/1.1" ∷ [] }

unfoldable pub tls_opts : Flags → List TlsOption
tls_opts f = if not f.enable_http2 then disable_http2 ∷ [] else []

-- webhook.Options
pub record WebhookOptions : Type 0 where
  pub tls_opts : List TlsOption
  pub cert_dir : String
  pub cert_name : String
  pub key_name : String

unfoldable pub webhook_server_options : Flags → WebhookOptions
webhook_server_options f =
    let options : WebhookOptions = record {
      tls_opts = tls_opts f;
      cert_dir = "";
      cert_name = "";
      key_name = "";
    } in
    if not (f.webhook_cert_path == "")
    then record options {
      cert_dir = f.webhook_cert_path;
      cert_name = f.webhook_cert_name;
      key_name = f.webhook_cert_key;
    }
    else options

pub data FilterProvider : Type 0 where
  with_authentication_and_authorization : FilterProvider

-- metricsserver.Options
pub record MetricsOptions : Type 0 where
  pub bind_address : String
  pub secure_serving : Bool
  pub tls_opts : List TlsOption
  pub filter_provider : Option FilterProvider
  pub cert_dir : String
  pub cert_name : String
  pub key_name : String

unfoldable pub metrics_server_options : Flags → MetricsOptions
metrics_server_options f =
    let options : MetricsOptions = record {
      bind_address = f.metrics_addr;
      secure_serving = f.secure_metrics;
      tls_opts = tls_opts f;
      filter_provider =
          if f.secure_metrics then some with_authentication_and_authorization else none;
      cert_dir = "";
      cert_name = "";
      key_name = "";
    } in
    if not (f.metrics_cert_path == "")
    then record options {
      cert_dir = f.metrics_cert_path;
      cert_name = f.metrics_cert_name;
      key_name = f.metrics_cert_key;
    }
    else options

-- ctrl.Options; the webhook server is one that was made with the options.
pub record ManagerOptions : Type 0 where
  pub metrics : MetricsOptions
  pub webhook_server : WebhookOptions
  pub health_probe_bind_address : String
  pub leader_election : Bool
  pub leader_election_id : String

unfoldable pub manager_options : Flags → ManagerOptions
manager_options f = record {
  metrics = metrics_server_options f;
  webhook_server = webhook_server_options f;
  health_probe_bind_address = f.probe_addr;
  leader_election = f.enable_leader_election;
  leader_election_id = "d8121aff.xenonite.io";
}

-- The namespace of the Secrets, from the variable POD_NAMESPACE.
unfoldable pub namespace_or_default : String → String
namespace_or_default namespace = if namespace == "" then "xenonite-system" else namespace
