-- ===== src/Proxmox/Purge.antt =====
-- What a `Delete` without an error has done.
use xenonite.Base.{
  String, true, ◌≡◌, refl, Option, none, some, List, [], ◌∷◌, ◌++◌, ◌⊎◌, inl, inr, Any, Any-left,
  Any-right, sym, subst, arith,
}
use xenonite.Base.Int.{ℤ}
use xenonite.Api.Core.{int}
use xenonite.Exec.{
  lift, Call, Event, called, External, History, ok, err, PveNode, PveVm, PveTask, request, ◌>>=◌,
}
use xenonite.Exec.Failures.{Result-cases, ok-bind}
use xenonite.Exec.Inversion.{bind-Any, bind-Any_first, wrapped-Any}
use xenonite.Proxmox.ProviderId.{parse_provider_id}
use xenonite.Proxmox.{
  ProxmoxBackend, find_vm, purge, purge_found, delete_machine, task_timeout_secs,
}
use xenonite.Proxmox.Create.{Finds, Waits}

-- A lookup of the node, or of a VM id, was answered with "not found".
abbrev pub Misses : External → String → ℤ → Event → Type 0
Misses ext node vmid (called (Call.pve_node _ name) (err e)) =
    (name ≡ node) × (ext.pve_is_not_found e ≡ true)
Misses ext node vmid (called (Call.pve_vm _ n) (err e)) =
    (n ≡ vmid) × (ext.pve_is_not_found e ≡ true)
Misses ext node vmid _ = ⊥

-- The node was asked for by its name, and its handle is the answer.
abbrev pub Asks : String → PveNode → Event → Type 0
Asks node shown (called (Call.pve_node _ name) (ok nd)) = (name ≡ node) × (nd ≡ shown)
Asks node shown _ = ⊥

-- The VM was asked to be deleted, with its disks, as a task.
abbrev pub Purges : PveVm → PveTask → Event → Type 0
Purges vm task (called (Call.pve_delete v opts) (ok t)) =
    (v ≡ vm) × (opts.purge ≡ true) × (opts.destroy_unreferenced_disks ≡ true) × (t ≡ task)
Purges vm task _ = ⊥

-- The VM that the node shows under the id was deleted by a task that was waited for.
pub record IsPurged (node : String) (vmid : ℤ) (es : List Event) : Type 0 where
  pub shown : PveNode
  pub vm : PveVm
  pub task : PveTask
  pub asked : Any (Asks node shown) es
  pub found : Any (Finds shown vmid vm) es
  pub purged : Any (Purges vm task) es
  pub waited : Any (Waits task) es

module _ (ext : External) where
  purge-Purges :
      (vm : PveVm) (vmid : ℤ) (h : History)
      → (purge ext vm vmid h).0 ≡ ok tt
      → (task : PveTask) × Any (Purges vm task) (purge ext vm vmid h).1
        × Any (Waits task) (purge ext vm vmid h).1
  unfolding purge
  purge-Purges vm vmid h e =
      let (_, q1, rest, _) = ok-bind _ _ h tt e in
      let (task, q2, q3, _) = ok-bind _ _ _ tt rest in
      (
        task,
        bind-Any _ _ _ h tt q1 (
            bind-Any_first _ _ _ _ (
              wrapped-Any ext (Purges vm task) "delete vm %d" (int vmid ∷ [])
                (Call.pve_delete vm (record { purge = true; destroy_unreferenced_disks = true })) _
                task q2 (refl, refl, refl, refl))),
        bind-Any _ _ _ h tt q1 (
            bind-Any _ _ _ _ task q2 (
              wrapped-Any ext (Waits task) "wait for delete" []
                (Call.pve_wait task task_timeout_secs) _ tt q3 refl)),
      )

  module _ (p : ProxmoxBackend) (node : String) (vmid : ℤ) where
    -- What a lookup has shown.
    abbrev Located : Option PveVm → List Event → Type 0
    Located none es = Any (Misses ext node vmid) es
    Located (some vm) es = (nd : PveNode) × Any (Asks node nd) es × Any (Finds nd vmid vm) es

    find_vm-Located :
        (h : History) (found : Option PveVm)
        → (find_vm ext p node vmid h).0 ≡ ok found
        → Located found (find_vm ext p node vmid h).1
    unfolding find_vm ◌>>=◌ request
    find_vm-Located h none q = ground arith
    find_vm-Located h (some vm) q =
        elim (Result-cases (ext.answer h (Call.pve_node p.client node))) [
          | inl (nd, e) ↦ (nd, ground (arith, e), ground (arith, e))
          | inr (er, e) ↦ absurd (ground (arith, e))
        ]

    purge_found-Purges :
        (found : Option PveVm) (h : History) (es : List Event)
        → Located found es
        → (purge_found ext found vmid h).0 ≡ ok tt
        → Any (Misses ext node vmid) (es ++ (purge_found ext found vmid h).1)
          ⊎ IsPurged node vmid (es ++ (purge_found ext found vmid h).1)
    unfolding purge_found
    purge_found-Purges none h es missed q = inl (Any-left _ es _ missed)
    purge_found-Purges (some vm) h es (nd, asked, found) q =
        let (task, purged, waited) = purge-Purges vm vmid h q in
        inr (record {
          shown = nd;
          vm = vm;
          task = task;
          asked = Any-left _ es _ asked;
          found = Any-left _ es _ found;
          purged = Any-right _ es _ purged;
          waited = Any-right _ es _ waited;
        })

    found-Purges :
        (h : History)
        → ((find_vm ext p node vmid >>= λ vm. purge_found ext vm vmid) h).0 ≡ ok tt
        → Any
            (Misses ext node vmid)
            ((find_vm ext p node vmid >>= λ vm. purge_found ext vm vmid) h).1
          ⊎ IsPurged node vmid ((find_vm ext p node vmid >>= λ vm. purge_found ext vm vmid) h).1
    found-Purges h q =
        let (found, k, rest, all) = ok-bind (find_vm ext p node vmid) _ h tt q in
        subst (λ es. Any (Misses ext node vmid) es ⊎ IsPurged node vmid es) (sym all)
          (purge_found-Purges found _ _ (find_vm-Located h found k) rest)

    -- Where `Delete` of a well-formed id returns no error, a lookup of the id's node or VM was
    -- answered with "not found", or the VM that the node's handle showed under the id was asked to
    -- be deleted with all of its disks, as a task, and the wait for that task ended with success.
    pub delete_machine-Purges :
        (id : String)
        → parse_provider_id id ≡ ok (node, vmid)
        → (h : History) → (delete_machine ext p id h).0 ≡ ok tt
        → Any (Misses ext node vmid) (delete_machine ext p id h).1
          ⊎ IsPurged node vmid (delete_machine ext p id h).1
    unfolding delete_machine ◌>>=◌ lift
    delete_machine-Purges id parsed h q = rw parsed (found-Purges _ (rw parsed at q))
