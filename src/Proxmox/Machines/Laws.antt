-- ===== src/Proxmox/Machines/Laws.antt =====
-- What is taken of the lookups of VMs, and the states over more calls.
use xenonite.Base.{String, true, false, ◌≡◌, refl, List, [], ◌∷◌, ◌++◌, arith, eq_refl}
use xenonite.Base.Int.{ℤ}
use xenonite.Api.Core.{Error}
use xenonite.Exec.{Call, Event, History, External, ok, err, PveClient, PveNode, PveVm}
use xenonite.Proxmox.Machines.{
  Machine, Presence, presence, after_all, after, Sight, look_all, look, is_on,
}

-- The handles name what was asked for.
pub record NamesHandles (ext : External) : Type 0 where
  pub node_asked :
      (h : History) (client : PveClient) (name : String) (node : PveNode)
      → ext.answer h (Call.pve_node client name) ≡ ok node
      → node ≡ record { client = client; name = name }
  pub vm_asked :
      (h : History) (node : PveNode) (vmid : ℤ) (vm : PveVm)
      → ext.answer h (Call.pve_vm node vmid) ≡ ok vm
      → (vm.node ≡ node) × (vm.vmid ≡ vmid)

-- A machine that is there, or its node, is not "not found".
pub record KeepsMachines (ext : External) : Type 0 where
  pub names : NamesHandles ext
  pub node_stays :
      (m : Machine) (h : History) (client : PveClient) (e : Error)
      → presence m h ≡ Presence.present
      → client.endpoint ≡ m.endpoint
      → ext.answer h (Call.pve_node client m.node) ≡ err e
      → ext.pve_is_not_found e ≡ false
  pub vm_stays :
      (m : Machine) (h : History) (client : PveClient) (e : Error)
      → presence m h ≡ Presence.present
      → client.endpoint ≡ m.endpoint
      → ext.answer h (Call.pve_vm (record { client = client; name = m.node }) m.vmid) ≡ err e
      → ext.pve_is_not_found e ≡ false

pub after_all-append :
    (m : Machine) (s : Presence) (es fs : List Event)
    → after_all m s (es ++ fs) ≡ after_all m (after_all m s es) fs
after_all-append m s [] fs = refl
after_all-append m s (e ∷ es) fs = after_all-append m (after m s e) es fs

pub look_all-append :
    (ext : External) (m : Machine) (s : Sight) (es fs : List Event)
    → look_all ext m s (es ++ fs) ≡ look_all ext m (look_all ext m s es) fs
look_all-append ext m s [] fs = refl
look_all-append ext m s (e ∷ es) fs = look_all-append ext m (look ext m s e) es fs

-- The machine of a client's node.
pub is_on_refl :
    (client : PveClient) (node : String) (vmid : ℤ)
    → is_on (record { endpoint = client.endpoint; node = node; vmid = vmid }) client node ≡ true
is_on_refl client node vmid = ground (arith, eq_refl client.endpoint, eq_refl node)
