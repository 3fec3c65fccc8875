-- ===== src/Proxmox/Reads.antt =====
-- Lookups ask and change nothing.
use xenonite.Base.{String, Option, none, some}
use xenonite.Base.Int.{ℤ}
use xenonite.Api.Core.{Arg}
use xenonite.Exec.{Call, External, Result, ok, err, PveNode}
use xenonite.Exec.Emits.{Emits, emits_rules}
use xenonite.Proxmox.{
  ProxmoxBackend, find_vm, find_vm_on, look_up, look_up_on, or_missing, get_machine,
}

-- Looking up a node or a VM.
abbrev pub IsLookup : Call → Type 0
IsLookup (Call.pve_node _ _) = Unit
IsLookup (Call.pve_vm _ _) = Unit
IsLookup _ = ⊥

module _ {allowed : Call → Type 0} (ext : External) where
  or_missing-Emits :
      {A : Type 0} (format : String) (arg : Arg) (r : Result A)
      → Emits allowed (or_missing ext format arg r)
  unfolding or_missing
  or_missing-Emits format arg (ok a) = search emits_rules
  or_missing-Emits format arg (err e) = search emits_rules

module _ (ext : External) where
  find_vm_on-IsLookup : (n : Option PveNode) (vmid : ℤ) → Emits IsLookup (find_vm_on ext n vmid)
  unfolding find_vm_on
  find_vm_on-IsLookup none vmid = search emits_rules
  find_vm_on-IsLookup (some n) vmid = search (emits_rules, or_missing-Emits)

  pub find_vm-IsLookup :
      (p : ProxmoxBackend) (node : String) (vmid : ℤ) → Emits IsLookup (find_vm ext p node vmid)
  unfolding find_vm
  find_vm-IsLookup p node vmid = search (emits_rules, or_missing-Emits, find_vm_on-IsLookup)

  look_up_on-IsLookup : (n : Option PveNode) (vmid : ℤ) → Emits IsLookup (look_up_on ext n vmid)
  unfolding look_up_on
  look_up_on-IsLookup none vmid = search emits_rules
  look_up_on-IsLookup (some n) vmid = search (emits_rules, or_missing-Emits)

  look_up-IsLookup :
      (p : ProxmoxBackend) (node : String) (vmid : ℤ) → Emits IsLookup (look_up ext p node vmid)
  unfolding look_up
  look_up-IsLookup p node vmid = search (emits_rules, or_missing-Emits, look_up_on-IsLookup)

  -- `Get` makes no call but lookups of nodes and VMs, whatever Proxmox answers.
  pub get_machine-IsLookup :
      (p : ProxmoxBackend) (id : String) → Emits IsLookup (get_machine ext p id)
  unfolding get_machine
  get_machine-IsLookup p id = search (emits_rules, look_up-IsLookup)
