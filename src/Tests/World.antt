-- ===== src/Tests/World.antt =====
-- A small cluster: an API server that stores nothing, a Proxmox where every call succeeds, and
-- simple versions of the libraries.
use xenonite.Base.{
  String, Bool, true, false, ◌&&◌, ◌==◌, eq_iff, eq_refl, ◌≡◌, refl, none, some, List, [], ◌∷◌, any,
  if◌then◌else◌, arith, Bool-cases, inl, inr,
}
use xenonite.Base.Int.{pos}
use xenonite.Api.Core.{Error, foreign, Condition, Pod, Node, empty_meta, condition_true, text}
use xenonite.Api.Labels.{finalizer_node_claim}
use xenonite.Api.NodeClaim.{XenonNodeClaim, empty_status}
use xenonite.Api.NodePool.{XenonNodePool}
use xenonite.Api.ProxmoxProvider.{ProxmoxProvider, ProxmoxProviderSpec, ProxmoxCredentials}
use xenonite.Exec.{Result, ok, err, Call, Reply, Event, called, History, External}
use xenonite.Exec.Laws.{HasFinalizerLaws}

abbrev pub credentials : ProxmoxCredentials
credentials = record { username = "root"; password = "secret"; realm = "pam" }

abbrev pub provider_spec : ProxmoxProviderSpec
provider_spec = record {
  endpoint = "https://pve:8006/api2/json";
  insecure = true;
  credentials = credentials;
  nodes = "pve1" ∷ [];
  pool = "";
  source_template = record { node = "pve0"; vmid = pos 9000 };
  storage = "local-lvm";
  network_bridge = "vmbr0";
  tags = "k8s" ∷ "xenonite" ∷ [];
  cloud_init = record { user_data = "#cloud-config"; storage = ""; device = "" };
  bootstrap = record {
    server = "10.0.0.1:6443";
    token_secret_ref = record { name = "join"; key = "token" };
  };
}

abbrev pub provider : ProxmoxProvider
provider = record {
  metadata = record empty_meta { name = "pve" };
  spec = provider_spec;
  status = record { conditions = [] };
}

abbrev pub pool : XenonNodePool
pool = record {
  metadata = record empty_meta { name = "gpu" };
  spec = record {
    provider_ref = record { api_group = none; kind = "ProxmoxProvider"; name = "pve" };
    template = record {
      labels = [];
      annotations = [];
      spec = record { requirements = []; resources = ("cpu", pos 4) ∷ [] };
    };
    limits = ("nodes", pos 2) ∷ [];
    weight = none;
  };
  status = record { resources = []; conditions = [] };
}

-- A claim with a size that no conversion leaves as it is.
abbrev pub new_machine : XenonNodeClaim
new_machine = record {
  metadata = record empty_meta { name = "gpu-1" };
  spec = record {
    node_pool_ref = "gpu";
    requirements = [];
    resources =
        ("cpu", pos 4) ∷ ("memory", pos 2_000_000_000) ∷ ("storage", pos 20_000_000_000) ∷ [];
  };
  status = empty_status;
}

abbrev pub finalizers : List String
finalizers = finalizer_node_claim ∷ []

-- Provisioned, and being deleted.
abbrev pub leaving : XenonNodeClaim
leaving = record new_machine {
  metadata = record new_machine.metadata {
    finalizers = finalizers;
    deletion_timestamp = some (pos 1);
  };
  status = record empty_status { provider_id = "proxmox://pve1/101" };
}

abbrev pub node : Node
node = record {
  metadata = record empty_meta { name = "gpu-1" };
  conditions =
      record { type = "Ready"; status = condition_true; reason = "KubeletReady"; message = text "" }
      ∷ [];
}

abbrev pub waiting_pod : Pod
waiting_pod = record {
  metadata = record empty_meta { name = "train" };
  spec = record {
    node_name = "";
    node_selector = [];
    required_terms = some (
        record {
          match_expressions =
              record {
                key = "xenonite.io/nodepool";
                operator = "In";
                values = "gpu" ∷ "spare" ∷ [];
              }
              ∷ [];
        }
        ∷ []);
  };
  status = record {
    phase = "Pending";
    conditions =
        record {
          type = "PodScheduled";
          status = "False";
          reason = "Unschedulable";
          message = text "0/3 nodes";
        }
        ∷ [];
  };
}

-- What the cluster holds.
pub record Scene : Type 0 where
  pub claim : XenonNodeClaim
  pub pool_found : Bool
  pub proxmox_up : Bool
  pub pods : List Pod
  pub claims : List XenonNodeClaim

abbrev not_found : Error
not_found = foreign "not found"

abbrev is_gone : Error → Bool
is_gone (foreign s) = s == "not found"
is_gone _ = false

abbrev purges : Event → Bool
purges (called (Call.pve_delete _ _) _) = true
purges _ = false

abbrev pub answer : Scene → History → (c : Call) → Result (Reply c)
answer s h (Call.get_claim _) = ok s.claim
answer s h (Call.get_pool _) = if s.pool_found then ok pool else err not_found
answer s h (Call.get_provider _) = ok provider
answer s h (Call.get_node _) = ok node
answer s h (Call.get_secret _ _) = ok (record { entries = ("token", "K10") ∷ [] })
answer s h Call.list_pods = ok s.pods
answer s h (Call.list_pods_on _) = ok []
answer s h (Call.list_claims _) = ok s.claims
answer s h (Call.create_claim c) = ok c
answer s h (Call.delete_claim _) = ok tt
answer s h (Call.update_claim c) = ok c
answer s h (Call.update_claim_status c) = ok c
answer s h (Call.patch_claim _ c) = ok c
answer s h (Call.patch_node _ n) = ok n
answer s h (Call.update_pool_status p) = ok p
answer s h (Call.pve_cluster _) = ok tt
answer s h (Call.pve_next_id _) = ok (pos 101)
answer s h (Call.pve_node c name) =
    if s.proxmox_up then ok (record { client = c; name = name }) else err (foreign "unreachable")
answer s h (Call.pve_vm n vmid) =
    if any purges h
    then err not_found
    else ok (record { node = n; vmid = vmid; status = "running" })
answer s h (Call.pve_clone _ _) = ok (record { upid = "clone" })
answer s h (Call.pve_config _ _) = ok (record { upid = "config" })
answer s h (Call.pve_cloud_init _ _ _ _) = ok tt
answer s h (Call.pve_start _) = ok (record { upid = "start" })
answer s h (Call.pve_stop _) = ok (record { upid = "stop" })
answer s h (Call.pve_delete _ _) = ok (record { upid = "delete" })
answer s h (Call.pve_wait _ _) = ok tt

abbrev contains : List String → String → Bool
contains fs f = any (λ g. g == f) fs

abbrev without : String → List String → List String
without f [] = []
without f (g ∷ fs) = if g == f then without f fs else g ∷ without f fs

abbrev is_true : String → Condition → Bool
is_true type c = c.type == type && c.status == condition_true

abbrev pub world : Scene → External
world s = record {
  answer = answer s;
  clock = λ h. pos 600_000_000_000;
  is_not_found = is_gone;
  ignore_not_found = λ e. if is_gone e then none else some e;
  pve_is_not_found = is_gone;
  set_status_condition = λ cs c. c ∷ cs;
  is_status_condition_true = λ cs type. any (is_true type) cs;
  contains_finalizer = contains;
  add_finalizer = λ fs f. if contains fs f then (fs, false) else (f ∷ fs, true);
  remove_finalizer = λ fs f. (without f fs, contains fs f);
  set_controller_reference = λ p c. ok (record c {
    metadata = record c.metadata {
      owner_references = record { kind = "XenonNodePool"; name = p.metadata.name } ∷ [];
    };
  });
  parse_template = λ s. ok (λ values. ok s);
  format_rfc3339 = λ t. "1970-01-01T00:10:00Z";
  parse_rfc3339 = λ s. if s == "1970-01-01T00:00:00Z" then ok (pos 0) else err (foreign "parse");
}

contains-without : (fs : List String) (f : String) → contains (without f fs) f ≡ false
contains-without [] f = refl
contains-without (g ∷ fs) f = elim (Bool-cases (g == f)) [
  | inl e ↦ rw e (contains-without fs f)
  | inr e ↦ rw e (rw e (contains-without fs f))
]

pub world-HasFinalizerLaws : (s : Scene) → HasFinalizerLaws (world s)
world-HasFinalizerLaws s = record {
  contains-add = λ fs f. ground (arith, eq_iff f f, eq_refl f);
  changed-add = λ fs f. ground arith;
  contains-remove = λ fs f. contains-without fs f;
  changed-remove = λ fs f. refl;
}
