-- ===== src/Proxmox/Machines.antt =====
-- A VM as the calls on Proxmox show it: whether it is known to be there, since the wait for its
-- clone ended, and what the last lookup of it found.
pub mod Laws
use xenonite.Base.{String, Bool, true, false, ◌&&◌, ◌==◌, List, [], ◌∷◌, if◌then◌else◌}
use xenonite.Base.Int.{ℤ, eq_int}
use xenonite.Api.Core.{Error}
use xenonite.Exec.{
  Call, Event, called, History, External, ok, err, PveClient, PveNode, PveVm, PveTask, CloneOptions,
}

-- A VM, by the address of its cluster, its node and its id.
pub record Machine : Type 0 where
  pub endpoint : String
  pub node : String
  pub vmid : ℤ

-- Present: the wait for its clone has ended, and no deletion of it was asked for since.
pub data Presence : Type 0 where
  unknown present : Presence
  cloning : (upid : String) → Presence

-- What the last lookup of it found.
pub data Sight : Type 0 where
  unseen seen missing : Sight

module _ (m : Machine) where
  abbrev pub is_on : PveClient → String → Bool
  is_on client node = client.endpoint == m.endpoint && node == m.node

  abbrev pub is_vm : PveNode → ℤ → Bool
  is_vm node vmid = is_on node.client node.name && eq_int vmid m.vmid

  abbrev pub is_clone : PveVm → CloneOptions → Bool
  is_clone template opts = is_on template.node.client opts.target && eq_int opts.new_id m.vmid

-- The wait for a task has ended.
abbrev pub ended : PveTask → Presence → Presence
ended t (Presence.cloning upid) = if upid == t.upid then Presence.present else Presence.cloning upid
ended t s = s

module _ (m : Machine) where
  abbrev pub after : Presence → Event → Presence
  after s (called (Call.pve_clone template opts) (ok t)) =
      if is_clone m template opts then Presence.cloning t.upid else s
  after s (called (Call.pve_delete vm _) _) =
      if is_vm m vm.node vm.vmid then Presence.unknown else s
  after s (called (Call.pve_wait t _) (ok _)) = ended t s
  after s _ = s

  abbrev pub after_all : Presence → List Event → Presence
  after_all s [] = s
  after_all s (e ∷ es) = after_all (after s e) es

  -- How the machine stands after all calls so far.
  abbrev pub presence : History → Presence
  presence h = after_all Presence.unknown h

module _ (ext : External) (m : Machine) where
  -- A lookup of the VM, or of its node, that is answered with "not found" misses it.
  abbrev pub look : Sight → Event → Sight
  look s (called (Call.pve_vm node vmid) (ok _)) = if is_vm m node vmid then Sight.seen else s
  look s (called (Call.pve_vm node vmid) (err e)) =
      if is_vm m node vmid && ext.pve_is_not_found e then Sight.missing else s
  look s (called (Call.pve_node client node) (err e)) =
      if is_on m client node && ext.pve_is_not_found e then Sight.missing else s
  look s _ = s

  abbrev pub look_all : Sight → List Event → Sight
  look_all s [] = s
  look_all s (e ∷ es) = look_all (look s e) es

  abbrev pub sight : History → Sight
  sight h = look_all Sight.unseen h
