-- ===== src/Proxmox/Presence/RoundTrip.antt =====
-- What Get sees of the machines that Create made.
use xenonite.Base.{String, Any, ◌++◌, ◌≡◌, ◌≢◌, subst, ◌∙◌, ap, none}
use xenonite.Base.Int.{ℤ}
use xenonite.Exec.{External, ok, History}
use xenonite.Provider.{CreateRequest}
use xenonite.Exec.Yields.{Yields}
use xenonite.Go.Strings.Laws.{NoSlash}
use xenonite.Go.Strconv.Laws.{IsInt64}
use xenonite.Proxmox.ProviderId.{parse_provider_id}
use xenonite.Proxmox.ProviderId.RoundTrip.{parse-new}
use xenonite.Proxmox.{ProxmoxBackend, target_node, create_machine, get_machine}
use xenonite.Proxmox.Create.{ClonesTo}
use xenonite.Proxmox.Machines.{Presence, presence}
use xenonite.Proxmox.Machines.Laws.{KeepsMachines}
use xenonite.Proxmox.Presence.{machine, Made, create_machine-present}
use xenonite.Proxmox.Presence.Reads.{Fits, get_machine-Yields}

module _ (ext : External) (laws : KeepsMachines ext) (p : ProxmoxBackend) where
  get_machine-Fits :
      (node id : String) (vmid : ℤ) (s : Presence) (g : History) (inst : _)
      → parse_provider_id id ≡ ok (node, vmid)
      → presence (machine p node vmid) g ≡ s
      → (get_machine ext p id g).0 ≡ ok inst
      → Fits s inst
  get_machine-Fits node id vmid s g inst parsed here e =
      subst (λ r. Yields (λ i _. Fits s i) r (g ++ (get_machine ext p id g).1)) e
        ((get_machine-Yields ext laws p node vmid id s parsed).at g here)

  -- Where `Create` returns an id and no error, the id is of a machine that is there, and `Get` of
  -- the id never answers that there is none while the machine stays there. Proxmox does not answer
  -- with "not found" for a VM whose clone has ended and that was not deleted since, or for its node,
  -- the target node's name is not empty and has no slash, and the
  -- VM ids that it hands out fit an int.
  pub create_machine-get_machine :
      (req : CreateRequest) (h : History) (id : String)
      → target_node p ≢ ""
      → NoSlash (target_node p)
      → ((n : ℤ) → Any (ClonesTo (target_node p) n) (create_machine ext p req h).1 → IsInt64 n)
      → (create_machine ext p req h).0 ≡ ok (id, none)
      → (n : ℤ) × (parse_provider_id id ≡ ok (target_node p, n))
        × Made p (target_node p) n (h ++ (create_machine ext p req h).1)
        × ((g : History) → Made p (target_node p) n g → (get_machine ext p id g).0 ≢ ok none)
  create_machine-get_machine req h id ne plain fits q =
      let (n, same, cloned, made) = create_machine-present ext laws.names p req h id q in
      let parsed =
        ap parse_provider_id same ∙ parse-new (target_node p) n ne plain (fits n cloned) in
      (
        n,
        parsed,
        made,
        λ g there e. get_machine-Fits (target_node p) id n Presence.present g none parsed there e,
      )
