-- ===== src/Proxmox/Delete.antt =====
-- `Delete` against `Get`, and the order of what it calls.
use xenonite.Base.{Where, String, ◌≡◌, Bool, true, false, ◌==◌, none, List, [], ◌∷◌, arith}
use xenonite.Exec.{Call, External, ok, Event, called, History, ◌>>=◌, request}
use xenonite.Proxmox.{ProxmoxBackend, get_machine, delete_machine}

-- How far a VM is from being purged: whether its task to stop was given, and whether it is
-- stopped.
pub data Power : Type 0 where
  on stopping off : Power

abbrev pub found_power : Bool → Power
found_power true = on
found_power false = off

-- After the event. A lookup shows the power state; a wait that ends after a stop means off.
abbrev pub power_after : Power → Event → Power
power_after s (called (Call.pve_vm _ _) (ok vm)) = found_power (vm.status == "running")
power_after s (called (Call.pve_stop _) (ok _)) = stopping
power_after stopping (called (Call.pve_wait _ _) (ok _)) = off
power_after s _ = s

abbrev pub purges : Event → Bool
purges (called (Call.pve_delete _ _) _) = true
purges _ = false

-- A VM is only deleted while it is off.
abbrev pub StopsFirst : Power → List Event → Type 0
StopsFirst s [] = Unit
StopsFirst s (e ∷ es) = Where (purges e) (s ≡ off) × StopsFirst (power_after s e) es

module _ (ext : External) (p : ProxmoxBackend) where
  -- Where `Get` finds no machine, `Delete` in its place makes the same calls and returns no error.
  pub delete_machine_of_get-none :
      (id : String) (h : History)
      → (get_machine ext p id h).0 ≡ ok none
      → delete_machine ext p id h ≡ (ok tt, (get_machine ext p id h).1)
  unfolding get_machine delete_machine ◌>>=◌
  delete_machine_of_get-none id h e = ground arith

  -- On every run of `Delete` a VM is deleted only after a lookup that showed it in another state
  -- than "running", or after a stop whose task was waited for with success.
  pub delete_machine-StopsFirst :
      (id : String) (h : History) → StopsFirst on (delete_machine ext p id h).1
  unfolding delete_machine ◌>>=◌ request
  delete_machine-StopsFirst id h = ground arith
