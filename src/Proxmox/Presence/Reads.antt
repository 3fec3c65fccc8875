-- ===== src/Proxmox/Presence/Reads.antt =====
-- Get against the states of a VM.
use xenonite.Base.{
  String, [], ◌∷◌, ◌++◌, ◌≡◌, refl, subst, arith, Option, none, some, ◌∙◌, inl, inr,
}
use xenonite.Base.Int.{ℤ}
use xenonite.Exec.{Call, called, External, Result, ok, err, History, PveVm, PveNode, request, ◌>>=◌}
use xenonite.Exec.Failures.{Result-cases}
use xenonite.Exec.Triple.{Triple}
use xenonite.Exec.Yields.{Yields, Yields-pure, Yields-known, Yields-bind}
use xenonite.Proxmox.ProviderId.{parse_provider_id}
use xenonite.Proxmox.{ProxmoxBackend, look_up, get_machine, instance_of}
use xenonite.Proxmox.Machines.{Presence, presence}
use xenonite.Proxmox.Machines.Laws.{KeepsMachines}
use xenonite.Proxmox.Presence.{presence-append, machine}

-- What `Get` may return for a machine that is there.
abbrev pub Fits {ℓ} : {A : Type ℓ} → Presence → Option A → Type 0
Fits Presence.present none = ⊥
Fits _ _ = Unit

module _ (ext : External) (laws : KeepsMachines ext) (p : ProxmoxBackend) (node : String)
    (vmid : ℤ) where
  abbrev Stands : Presence → History → Type 0
  Stands s h = presence (machine p node vmid) h ≡ s

  module _ (h : History) (nd : PveNode)
      (asked : ext.answer h (Call.pve_node p.client node) ≡ ok nd) where
    abbrev then_vm : History
    then_vm = (h ++ called (Call.pve_node p.client node) (ok nd) ∷ []) ++ []

    Stands-then_vm : (s : Presence) → Stands s h → Stands s then_vm
    Stands-then_vm s here =
        presence-append _ (h ++ called (Call.pve_node p.client node) (ok nd) ∷ []) []
        ∙ presence-append _ h (called (Call.pve_node p.client node) (ok nd) ∷ [])
        ∙ here

  look_up-found :
      (h : History) → Stands Presence.present h → (look_up ext p node vmid h).0 ≡ ok none → ⊥
  unfolding look_up ◌>>=◌ request
  look_up-found h here q = elim (Result-cases (ext.answer h (Call.pve_node p.client node))) [
    | inr (er, e) ↦
        let known = laws.node_stays (machine p node vmid) h p.client er here refl e in
        ground (arith, e, known)
    | inl (nd, e) ↦ elim (Result-cases (ext.answer (then_vm h nd e) (Call.pve_vm nd vmid))) [
      | inl (vm, e') ↦ let q' = rw (e, e') at q in cc
      | inr (er, e') ↦
          let known =
            laws.vm_stays (machine p node vmid) (then_vm h nd e) p.client er
              (Stands-then_vm h nd e Presence.present here) refl
              (subst (λ nd'. ext.answer (then_vm h nd e) (Call.pve_vm nd' vmid) ≡ err er)
                (laws.names.node_asked h p.client node nd e) e') in
          let q' = rw (e, e', known) at q in cc
    ]
  ]

  look_up-Fits :
      (s : Presence)
      → Triple (Stands s) (look_up ext p node vmid) (Yields (λ found _. Fits s found))
  look_up-Fits s = record { at = λ h here. go s h here (look_up ext p node vmid h).0 refl }
    where
      go :
          (s : Presence) (h : History)
          → Stands s h
          → (r : Result (Option PveVm)) → (look_up ext p node vmid h).0 ≡ r
          → Yields (λ found _. Fits s found) r (h ++ (look_up ext p node vmid h).1)
      go Presence.present h here (ok none) e = look_up-found h here e
      go Presence.present h here (ok (some vm)) e = tt
      go Presence.unknown h here (ok _) e = tt
      go (Presence.cloning _) h here (ok _) e = tt
      go s h here (err _) e = tt

  instance-Fits :
      (s : Presence) (id : String) (found : Option PveVm)
      → Fits s found
      → Fits s (instance_of ext id found)
  instance-Fits Presence.present id (some vm) f = tt
  instance-Fits Presence.present id none f = f
  instance-Fits Presence.unknown id _ f = tt
  instance-Fits (Presence.cloning _) id _ f = tt

  pub get_machine-Yields :
      (id : String) (s : Presence)
      → parse_provider_id id ≡ ok (node, vmid)
      → Triple (Stands s) (get_machine ext p id) (Yields (λ inst _. Fits s inst))
  unfolding get_machine
  get_machine-Yields id s parsed =
      Yields-known (parse_provider_id id) _ (node, vmid) parsed
        (Yields-bind _ _ (λ found _. Fits s found) (look_up-Fits s)
          (λ found. Yields-pure _ (λ h fits. instance-Fits s id found fits)))
