-- ===== src/Proxmox.antt =====
-- internal/provider/proxmox/proxmox.go: the backend over go-proxmox, whose calls are the `pve_…`
-- calls of `Exec`. The proofs are in the modules below.
pub mod ProviderId
pub mod Reads
pub mod Emits
pub mod Create
pub mod Configure
pub mod Delete
pub mod Purge
pub mod Failures
pub mod Machines
pub mod Bounded
pub mod Presence
use xenonite.Base.{
  ℕ, String, Bool, true, false, ◌&&◌, not, ◌==◌, Option, none, some, List, [], ◌∷◌, ◌++◌,
  if◌then◌else◌,
}
use xenonite.Base.Int.{ℤ, pos, lt_int}
use xenonite.Api.Core.{Error, Arg, str, int}
use xenonite.Api.ProxmoxProvider.{ProxmoxProviderSpec, ProxmoxCredentials}
use xenonite.Exec.{
  Result, ok, err, Exec, External, PveClient, PveNode, PveVm, PveTask, CloneOptions, VmOption,
  DeleteOptions, pve_cluster, pve_next_id, pve_node, pve_vm, pve_clone, pve_config, pve_cloud_init,
  pve_start, pve_stop, pve_delete, pve_wait, pure, raise, lift, attempt, wrap, request, ◌>>=◌, ◌>>◌,
}
use xenonite.Provider.{CreateRequest, Instance, Provider}
use xenonite.Go.Strings.{join}
use xenonite.Proxmox.ProviderId.{new_provider_id, parse_provider_id}

abbrev pub task_timeout_secs : ℕ
task_timeout_secs = 600

pub record ProxmoxBackend : Type 0 where
  pub client : PveClient
  pub spec : ProxmoxProviderSpec

-- New
unfoldable pub new_backend : ProxmoxProviderSpec → ProxmoxCredentials → ProxmoxBackend
new_backend spec creds = record {
  client = record {
    endpoint = spec.endpoint;
    insecure_skip_verify = spec.insecure;
    credentials = creds;
  };
  spec = spec;
}

first_or : List String → String → String
first_or [] s = s
first_or (n ∷ _) s = n

unfoldable pub target_node : ProxmoxBackend → String
unfolding first_or
target_node p = first_or p.spec.nodes p.spec.source_template.node

unfoldable pub device : ProxmoxBackend → String
device p = if not (p.spec.cloud_init.device == "") then p.spec.cloud_init.device else "ide2"

unfoldable pub cloud_init_storage : ProxmoxBackend → String
cloud_init_storage p =
    if not (p.spec.cloud_init.storage == "") then p.spec.cloud_init.storage else p.spec.storage

-- One `if … { opts = append(opts, …) }` of `configure`.
abbrev pub option_if : Bool → String → Arg → List VmOption
option_if true name value = record { name = name; value = value } ∷ []
option_if false name value = []

abbrev pub is_positive : ℤ → Bool
is_positive n = lt_int (pos 0) n

abbrev pub has_tags : List String → Bool
has_tags [] = false
has_tags (_ ∷ _) = true

unfoldable pub configure_options : List String → CreateRequest → List VmOption
configure_options tags req =
    option_if (is_positive req.cores) "cores" (int req.cores)
    ++ option_if (is_positive req.memory_mb) "memory" (int req.memory_mb)
    ++ option_if (is_positive req.disk_gb) "disk" (int req.disk_gb)
    ++ option_if (has_tags tags) "tags" (str (join tags ";"))

-- The `err` of a call.
abbrev pub error_of {ℓ} : {A : Type ℓ} → Result A → Option Error
error_of (ok _) = none
error_of (err e) = some e

module _ (ext : External) where
  configure_with : PveVm → List VmOption → Exec (Unit {0})
  configure_with vm [] = pure tt
  configure_with vm (o ∷ opts) = do
    task ← wrap "configure vm" [] (request ext (pve_config vm (o ∷ opts)))
    wrap "wait for configure" [] (request ext (pve_wait task task_timeout_secs))

  pub configure : ProxmoxBackend → PveVm → CreateRequest → Exec (Unit {0})
  unfolding configure_with
  configure p vm req = configure_with vm (configure_options p.spec.tags req)

  -- `Create` up to the clone: the id of the new VM.
  unfoldable pub clone_template : ProxmoxBackend → CreateRequest → Exec ℤ
  clone_template p req = do
    wrap "get cluster" [] (request ext (pve_cluster p.client))
    new_id ← wrap "allocate vmid" [] (request ext (pve_next_id p.client))
    tmpl_node ←
        wrap "get template node %q" (str p.spec.source_template.node ∷ [])
          (request ext (pve_node p.client p.spec.source_template.node))
    tmpl ←
        wrap "get template vm %d" (int p.spec.source_template.vmid ∷ [])
          (request ext (pve_vm tmpl_node p.spec.source_template.vmid))
    clone_task ← wrap "clone template" [] (
        request ext (
          pve_clone tmpl (record {
            new_id = new_id;
            name = req.name;
            target = target_node p;
            storage = p.spec.storage;
            pool = p.spec.pool;
            full = true;
          })))
    wrap "wait for clone" [] (request ext (pve_wait clone_task task_timeout_secs))
    pure new_id

  -- `Create` from the clone on.
  pub set_up : ProxmoxBackend → CreateRequest → ℤ → Exec (Unit {0})
  unfolding configure
  set_up p req new_id = do
    node ←
        wrap "get target node %q" (str (target_node p) ∷ [])
          (request ext (pve_node p.client (target_node p)))
    vm ← wrap "get cloned vm %d" (int new_id ∷ []) (request ext (pve_vm node new_id))
    configure p vm req
    wrap "apply cloud-init" []
        (request ext (pve_cloud_init vm (device p) req.cloud_init_user_data (cloud_init_storage p)))
    start_task ← wrap "start vm" [] (request ext (pve_start vm))
    wrap "wait for start" [] (request ext (pve_wait start_task task_timeout_secs))

  unfoldable pub after_clone :
      ProxmoxBackend → CreateRequest → Result ℤ → Exec (String × Option Error)
  after_clone p req (err e) = pure ("", some e)
  after_clone p req (ok new_id) = do
    done ← attempt (set_up p req new_id)
    pure (new_provider_id (target_node p) new_id, error_of done)

  -- Create
  unfoldable pub create_machine : ProxmoxBackend → CreateRequest → Exec (String × Option Error)
  unfolding clone_template set_up after_clone
  create_machine p req = do cloned ← attempt (clone_template p req); after_clone p req cloned

  stop_if_running : PveVm → ℤ → Exec (Unit {0})
  stop_if_running vm vmid =
      if vm.status == "running"
      then (do
        stop_task ← wrap "stop vm %d" (int vmid ∷ []) (request ext (pve_stop vm))
        wrap "wait for stop" [] (request ext (pve_wait stop_task task_timeout_secs)))
      else pure tt

  pub purge : PveVm → ℤ → Exec (Unit {0})
  unfolding stop_if_running
  purge vm vmid = do
    stop_if_running vm vmid
    del_task ←
        wrap "delete vm %d" (int vmid ∷ [])
          (request ext (pve_delete vm (record { purge = true; destroy_unreferenced_disks = true })))
    wrap "wait for delete" [] (request ext (pve_wait del_task task_timeout_secs))

  -- The VM, or `none` where the node or the VM is not found: in `Delete` and `Get`.
  or_missing : {A : Type 0} → String → Arg → Result A → Exec (Option A)
  or_missing format arg (ok a) = pure (some a)
  or_missing format arg (err e) =
      if ext.pve_is_not_found e then pure none else raise (Error.wrapf format (arg ∷ []) e)

  -- The lookups of `Delete`.
  find_vm_on : Option PveNode → ℤ → Exec (Option PveVm)
  unfolding or_missing
  find_vm_on none vmid = pure none
  find_vm_on (some n) vmid = do
    r ← attempt (request ext (pve_vm n vmid))
    or_missing "get vm %d" (int vmid) r

  pub find_vm : ProxmoxBackend → String → ℤ → Exec (Option PveVm)
  unfolding find_vm_on
  find_vm p node vmid = do
    r ← attempt (request ext (pve_node p.client node))
    n ← or_missing "get node %q" (str node) r
    find_vm_on n vmid

  purge_found : Option PveVm → ℤ → Exec (Unit {0})
  unfolding purge
  purge_found none vmid = pure tt
  purge_found (some vm) vmid = purge vm vmid

  -- Delete
  unfoldable pub delete_machine : ProxmoxBackend → String → Exec (Unit {0})
  unfolding find_vm purge_found
  delete_machine p provider_id = do
    (node, vmid) ← lift (parse_provider_id provider_id)
    vm ← find_vm p node vmid
    purge_found vm vmid

  abbrev pub instance_of : String → Option PveVm → Option Instance
  instance_of provider_id none = none
  instance_of provider_id (some vm) =
      some (record { provider_id = provider_id; status = vm.status })

  -- The lookups of `Get`.
  look_up_on : Option PveNode → ℤ → Exec (Option PveVm)
  unfolding or_missing
  look_up_on none vmid = pure none
  look_up_on (some n) vmid = do
    r ← attempt (request ext (pve_vm n vmid))
    or_missing "get vm %d" (int vmid) r

  pub look_up : ProxmoxBackend → String → ℤ → Exec (Option PveVm)
  unfolding look_up_on
  look_up p node vmid = do
    r ← attempt (request ext (pve_node p.client node))
    n ← or_missing "get node %q" (str node) r
    look_up_on n vmid

  -- Get
  unfoldable pub get_machine : ProxmoxBackend → String → Exec (Option Instance)
  unfolding look_up
  get_machine p provider_id = do
    (node, vmid) ← lift (parse_provider_id provider_id)
    vm ← look_up p node vmid
    pure (instance_of provider_id vm)

  -- The methods of `*Provider` as a `provider.Provider`.
  abbrev pub proxmox_provider : ProxmoxProviderSpec → ProxmoxCredentials → Provider
  proxmox_provider spec creds =
      let p = new_backend spec creds in
      record { create = create_machine p; delete = delete_machine p; get = get_machine p }
