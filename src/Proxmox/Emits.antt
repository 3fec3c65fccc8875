-- ===== src/Proxmox/Emits.antt =====
-- Which calls the backend makes beside the clone. `Create` from the clone on, `Delete` and `Get`
-- stay within any set of calls that has theirs.
use xenonite.Base.{String, Option, none, some, List, [], ◌∷◌}
use xenonite.Base.Int.{ℤ}
use xenonite.Exec.{Call, External, Result, ok, err, PveVm, VmOption}
use xenonite.Exec.Emits.{Emits, Emits-widen, emits_rules}
use xenonite.Provider.{CreateRequest}
use xenonite.Proxmox.{
  ProxmoxBackend, set_up, after_clone, configure, configure_with, delete_machine, purge,
  purge_found, stop_if_running, find_vm, get_machine,
}
use xenonite.Proxmox.Reads.{IsLookup, find_vm-IsLookup, get_machine-IsLookup}

-- The calls on machines, but for those that make a new one.
abbrev pub IsUpkeep : Call → Type 0
IsUpkeep (Call.pve_node _ _) = Unit
IsUpkeep (Call.pve_vm _ _) = Unit
IsUpkeep (Call.pve_config _ _) = Unit
IsUpkeep (Call.pve_cloud_init _ _ _ _) = Unit
IsUpkeep (Call.pve_start _) = Unit
IsUpkeep (Call.pve_stop _) = Unit
IsUpkeep (Call.pve_delete _ _) = Unit
IsUpkeep (Call.pve_wait _ _) = Unit
IsUpkeep _ = ⊥

lookup-IsUpkeep : (c : Call) → IsLookup c → IsUpkeep c
lookup-IsUpkeep (Call.pve_node _ _) h = tt
lookup-IsUpkeep (Call.pve_vm _ _) h = tt
lookup-IsUpkeep _ h = absurd h

module _ (ext : External) where
  configure_with-IsUpkeep :
      (vm : PveVm) (opts : List VmOption) → Emits IsUpkeep (configure_with ext vm opts)
  unfolding configure_with
  configure_with-IsUpkeep vm [] = search emits_rules
  configure_with-IsUpkeep vm (o ∷ opts) = search emits_rules

  pub set_up-IsUpkeep :
      (p : ProxmoxBackend) (req : CreateRequest) (n : ℤ) → Emits IsUpkeep (set_up ext p req n)
  unfolding set_up configure
  set_up-IsUpkeep p req n = search (emits_rules, configure_with-IsUpkeep) depth 20

  stop_if_running-IsUpkeep : (vm : PveVm) (vmid : ℤ) → Emits IsUpkeep (stop_if_running ext vm vmid)
  unfolding stop_if_running
  stop_if_running-IsUpkeep vm vmid = search emits_rules

  purge_found-IsUpkeep : (vm : Option PveVm) (vmid : ℤ) → Emits IsUpkeep (purge_found ext vm vmid)
  unfolding purge_found purge
  purge_found-IsUpkeep none vmid = search emits_rules
  purge_found-IsUpkeep (some vm) vmid = search (emits_rules, stop_if_running-IsUpkeep)

  find_vm-IsUpkeep :
      (p : ProxmoxBackend) (node : String) (vmid : ℤ) → Emits IsUpkeep (find_vm ext p node vmid)
  find_vm-IsUpkeep p node vmid =
      Emits-widen lookup-IsUpkeep (find_vm ext p node vmid) (find_vm-IsLookup ext p node vmid)

  pub get_machine-IsUpkeep :
      (p : ProxmoxBackend) (id : String) → Emits IsUpkeep (get_machine ext p id)
  get_machine-IsUpkeep p id =
      Emits-widen lookup-IsUpkeep (get_machine ext p id) (get_machine-IsLookup ext p id)

  -- `Delete` makes no VM and calls no API server.
  pub delete_machine-IsUpkeep :
      (p : ProxmoxBackend) (id : String) → Emits IsUpkeep (delete_machine ext p id)
  unfolding delete_machine
  delete_machine-IsUpkeep p id = search (emits_rules, find_vm-IsUpkeep, purge_found-IsUpkeep)

  pub after_clone-IsUpkeep :
      (p : ProxmoxBackend) (req : CreateRequest) (r : Result ℤ)
      → Emits IsUpkeep (after_clone ext p req r)
  unfolding after_clone
  after_clone-IsUpkeep p req (err e) = search emits_rules
  after_clone-IsUpkeep p req (ok n) = search (emits_rules, set_up-IsUpkeep)
