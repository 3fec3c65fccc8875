-- ===== src/Proxmox/Presence/Sight.antt =====
-- What Get's answer says of the last lookup of a VM.
use xenonite.Base.{String, ◌++◌, ◌≡◌, refl, arith, Option, none, some, eq_refl, inl, inr}
use xenonite.Base.Int.{ℤ, eq_int_refl}
use xenonite.Exec.{Call, External, Result, ok, err, History, PveVm, request, ◌>>=◌}
use xenonite.Exec.Failures.{Result-cases}
use xenonite.Exec.Triple.{Triple}
use xenonite.Exec.Yields.{Yields, Yields-pure, Yields-known, Yields-bind}
use xenonite.Proxmox.ProviderId.{parse_provider_id}
use xenonite.Proxmox.{ProxmoxBackend, look_up, get_machine, instance_of}
use xenonite.Proxmox.Machines.{Sight, sight, look_all}
use xenonite.Proxmox.Machines.Laws.{NamesHandles, look_all-append}
use xenonite.Proxmox.Presence.{machine}

-- What was found is seen, and what was not is missing.
abbrev pub Shows {ℓ} : {A : Type ℓ} → Option A → Sight → Type 0
Shows none s = s ≡ Sight.missing
Shows (some _) s = s ≡ Sight.seen

module _ (ext : External) (names : NamesHandles ext) (p : ProxmoxBackend) (node : String)
    (vmid : ℤ) where
  look_up-Shows :
      (h : History) (s : Sight) (found : Option PveVm)
      → (look_up ext p node vmid h).0 ≡ ok found
      → Shows found (look_all ext (machine p node vmid) s (look_up ext p node vmid h).1)
  unfolding look_up ◌>>=◌ request
  look_up-Shows h s none q = elim (Result-cases (ext.answer h (Call.pve_node p.client node))) [
    | inl (nd, e) ↦ ground (
      arith,
      e,
      names.node_asked h p.client node nd e,
      eq_refl p.client.endpoint,
      eq_refl node,
      eq_int_refl vmid,
    )
    | inr (er, e) ↦ ground (arith, e, eq_refl p.client.endpoint, eq_refl node)
  ]
  look_up-Shows h s (some vm) q = elim (Result-cases (ext.answer h (Call.pve_node p.client node))) [
    | inl (nd, e) ↦ ground (
      arith,
      e,
      names.node_asked h p.client node nd e,
      eq_refl p.client.endpoint,
      eq_refl node,
      eq_int_refl vmid,
    )
    | inr (er, e) ↦ absurd (ground (arith, e))
  ]

  look_up-sight :
      Triple
        (λ h. Unit {0})
        (look_up ext p node vmid)
        (Yields (λ found h. Shows found (sight ext (machine p node vmid) h)))
  look_up-sight = record { at = λ h _. go h (look_up ext p node vmid h).0 refl }
    where
      go :
          (h : History) (r : Result (Option PveVm))
          → (look_up ext p node vmid h).0 ≡ r
          → Yields
              (λ found h. Shows found (sight ext (machine p node vmid) h))
              r
              (h ++ (look_up ext p node vmid h).1)
      go h (ok found) e =
          rw (look_all-append ext (machine p node vmid) Sight.unseen h) (look_up-Shows h _ found e)
      go h (err _) e = tt

  instance-Shows :
      (s : Sight) (id : String) (found : Option PveVm)
      → Shows found s
      → Shows (instance_of ext id found) s
  instance-Shows s id none f = f
  instance-Shows s id (some vm) f = f

  -- The last lookup is that of `Get`.
  pub get_machine-Shows :
      (id : String)
      → parse_provider_id id ≡ ok (node, vmid)
      → Triple
          (λ h. Unit {0})
          (get_machine ext p id)
          (Yields (λ inst h. Shows inst (sight ext (machine p node vmid) h)))
  unfolding get_machine
  get_machine-Shows id parsed =
      Yields-known (parse_provider_id id) _ (node, vmid) parsed
        (Yields-bind _ _ (λ found h. Shows found (sight ext (machine p node vmid) h)) look_up-sight
          (λ found. Yields-pure _ (λ h shows. instance-Shows _ id found shows)))
