-- ===== src/Claim/Ends.antt =====
-- How a teardown ends.
use xenonite.Base.{
  ap, String, ◌≡◌, ◌≢◌, ◌∙◌, refl, subst, sym, append-nil, [], ◌∷◌, ◌++◌, true, false, ◌==◌, eq_iff,
  Option, none, some, inl, inr, ◌⊎◌, Any, arith,
}
use xenonite.Base.Int.{ℤ}
use xenonite.Api.Core.{Error, CtrlResult, errorf, str}
use xenonite.Api.NodeClaim.{XenonNodeClaim}
use xenonite.Api.ProxmoxProvider.{ProxmoxProviderSpec}
use xenonite.Provider.{Instance, Provider}
use xenonite.Exec.{Call, Event, called, History, ok, err, External, raise, request, ◌>>=◌}
use xenonite.Exec.Failures.{Result-cases}
use xenonite.Exec.Laws.{HasFinalizerLaws}
use xenonite.Exec.Yields.{Yields-any, Yields-of, Yields-wrap}
use xenonite.Exec.Blames.{Blames, Blames-bind, Blames-events, Blames-wrap}
use xenonite.Proxmox.{ProxmoxBackend, new_backend, proxmox_provider, delete_machine, get_machine}
use xenonite.Proxmox.ProviderId.{parse_provider_id}
use xenonite.Proxmox.Machines.{Machine, Sight, sight}
use xenonite.Proxmox.Machines.Laws.{NamesHandles}
use xenonite.Proxmox.Presence.{machine}
use xenonite.Proxmox.Presence.Sight.{Shows, get_machine-Shows}
use xenonite.Claim.Objects.{proxmox_credentials}
use xenonite.Claim.Methods.{remove_finalizer, release_if_gone}
use xenonite.Claim.Reconcile.{
  XenonNodeClaimReconciler, resolve_provider, tear_down, reconcile_delete,
}
use xenonite.Claim.Guard.{holds}
use xenonite.Claim.OfPool.{resolve_provider-IsOfPool, resolved-proxmox}
use xenonite.Claim.Release.{Releases}
use xenonite.Claim.Clean.{IsSighted, reconcile_delete-IsSighted}

-- The call failed: it was answered with an error, which is not that a node or a VM is not found,
-- or with a pool whose provider is none of Proxmox.
abbrev pub Breaks : External → Event → Type 0
Breaks ext (called (Call.get_pool _) (ok pool)) = pool.spec.provider_ref.kind ≢ "ProxmoxProvider"
Breaks ext (called (Call.pve_node _ _) (err e)) = ext.pve_is_not_found e ≡ false
Breaks ext (called (Call.pve_vm _ _) (err e)) = ext.pve_is_not_found e ≡ false
Breaks ext (called _ (err _)) = Unit
Breaks ext _ = ⊥

-- The error of a teardown that finds the machine still there.
abbrev pub still_exists : XenonNodeClaim → Error
still_exists claim =
    errorf "machine %s still exists after delete; retrying" (str claim.status.provider_id ∷ [])

module _ (ext : External) (claim : XenonNodeClaim) (node : String) (vmid : ℤ) where
  -- The teardown is to be tried again, since its last lookup found the VM.
  abbrev pub Remains : History → Error → History → Type 0
  Remains start e h = (e ≡ still_exists claim) × IsSighted ext claim Sight.seen node vmid start h

module _ (ext : External) (p : ProxmoxBackend) (id node : String) (vmid : ℤ)
    (parsed : parse_provider_id id ≡ ok (node, vmid)) where
  delete_machine-Breaks :
      (h : History) (e : Error)
      → (delete_machine ext p id h).0 ≡ err e
      → Any (Breaks ext) (delete_machine ext p id h).1
  unfolding delete_machine ◌>>=◌ request
  delete_machine-Breaks h e q = ground (arith, parsed)

  get_machine-Breaks :
      (h : History) (e : Error)
      → (get_machine ext p id h).0 ≡ err e
      → Any (Breaks ext) (get_machine ext p id h).1
  unfolding get_machine ◌>>=◌ request
  get_machine-Breaks h e q = ground (arith, parsed)

module _ (ext : External) (r : XenonNodeClaimReconciler) (claim : XenonNodeClaim) where
  resolve_provider-Breaks :
      (h : History) (e : Error)
      → (resolve_provider ext r claim h).0 ≡ err e
      → Any (Breaks ext) (resolve_provider ext r claim h).1
  unfolding resolve_provider ◌>>=◌ request
  resolve_provider-Breaks h e q =
      elim (Result-cases (ext.answer h (Call.get_pool claim.spec.node_pool_ref))) [
        | inl (pool, a) ↦ ground (arith, a, eq_iff pool.spec.provider_ref.kind "ProxmoxProvider")
        | inr (er, a) ↦ ground (arith, a)
      ]

  remove_finalizer-Breaks :
      (h : History) (e : Error)
      → (remove_finalizer ext claim h).0 ≡ err e
      → Any (Breaks ext) (remove_finalizer ext claim h).1
  unfolding remove_finalizer ◌>>=◌ request
  remove_finalizer-Breaks h e q = ground arith

  release_if_gone-Breaks :
      (m : Machine) (inst : Option Instance)
      → Blames
          (Breaks ext)
          (λ e h. (e ≡ still_exists claim) × (sight ext m h ≡ Sight.seen))
          (λ h. Shows inst (sight ext m h))
          (release_if_gone ext claim inst)
  unfolding release_if_gone raise
  release_if_gone-Breaks m none = Blames-events _ (λ h e _ q. remove_finalizer-Breaks h e q)
  release_if_gone-Breaks m (some inst) = record {
    at = λ h e found q.
        inr (ground (arith, q), subst (λ g. sight ext m g ≡ Sight.seen) (sym (append-nil h)) found);
  }

  module _ (names : NamesHandles ext) (node : String) (vmid : ℤ)
      (parsed : parse_provider_id claim.status.provider_id ≡ ok (node, vmid)) where
    machine-Breaks :
        (p : ProxmoxBackend)
        → Blames
            (Breaks ext)
            (λ e h. (e ≡ still_exists claim) × (sight ext (machine p node vmid) h ≡ Sight.seen))
            (λ _. Unit {0})
            (delete_machine ext p claim.status.provider_id >>= λ _.
              get_machine ext p claim.status.provider_id >>= release_if_gone ext claim)
    machine-Breaks p =
        Blames-bind _ _ (λ _ _. Unit {0}) (Yields-any _)
          (Blames-events _ (λ h e _ q. delete_machine-Breaks ext p _ node vmid parsed h e q))
          (λ _.
            Blames-bind _ _ (λ inst h. Shows inst (sight ext (machine p node vmid) h))
              (get_machine-Shows ext names p node vmid _ parsed)
              (Blames-events _ (λ h e _ q. get_machine-Breaks ext p _ node vmid parsed h e q))
              (release_if_gone-Breaks (machine p node vmid)))

    module _ (real : r.new_provider ≡ none) (start : History) where
      tear_down-Breaks :
          Blames
            (Breaks ext)
            (Remains ext claim node vmid start)
            (λ h. h ≡ start)
            (tear_down ext r claim)
      unfolding tear_down
      tear_down-Breaks =
          Blames-bind _ _ IsResolved
            (Yields-wrap _ _ _ (
              Yields-of (resolve_provider ext r claim) (λ h (prov, spec) same e.
                ap (λ g. (resolve_provider ext r claim g).0) (sym same) ∙ e)))
            (Blames-wrap _ _ _ (λ h e _ q. resolve_provider-Breaks h e q))
            (λ (prov, spec). record {
              at = λ h e is q.
                  (subst Rest (sym (resolved-proxmox ext claim r real start prov spec is))
                      (rest prov spec is)).at
                    h e tt q;
            })
        where
          IsResolved : Provider × ProxmoxProviderSpec → History → Type 0
          IsResolved a _ = (resolve_provider ext r claim start).0 ≡ ok a

          Rest : Provider → Type 0
          Rest prov =
              Blames (Breaks ext) (Remains ext claim node vmid start) (λ _. Unit {0})
                (prov.delete claim.status.provider_id >>= λ _.
                  prov.get claim.status.provider_id >>= release_if_gone ext claim)

          rest :
              (prov : Provider) (spec : ProxmoxProviderSpec)
              → (resolve_provider ext r claim start).0 ≡ ok (prov, spec)
              → Rest (proxmox_provider ext spec (proxmox_credentials spec.credentials))
          rest prov spec is = record {
            at = λ h e _ q.
                elim ((machine-Breaks (new_backend spec (proxmox_credentials spec.credentials))).at
                  h e tt q) [
                    | inl b ↦ inl b
                    | inr (same, seen) ↦ inr (
                      same,
                      record {
                        spec = spec;
                        of_pool = resolve_provider-IsOfPool ext claim r start prov spec is;
                        sighted = seen;
                      },
                    )
                  ];
          }

    reconcile_delete-Breaks :
        r.new_provider ≡ none
        → claim.status.provider_id ≢ ""
        → holds ext claim ≡ true
        → (h : History) (e : Error) → (reconcile_delete ext r claim h).0 ≡ err e
        → Any (Breaks ext) (reconcile_delete ext r claim h).1
          ⊎ Remains ext claim node vmid h e (h ++ (reconcile_delete ext r claim h).1)
    unfolding reconcile_delete
    reconcile_delete-Breaks real made held h e q =
        let unmade : (claim.status.provider_id == "") ≡ false =
          ground (arith, eq_iff claim.status.provider_id "") in
        rw (held, unmade) ((tear_down-Breaks real h).at h e refl (rw (held, unmade) at q))

    -- The Reconcile of a claim that is being deleted, with the finalizer and a well-formed
    -- providerID, ends in one of three ways. It returns no error: then it has written the claim
    -- without the finalizer, with success, and the last lookup of the providerID's VM in the
    -- Proxmox that the claim's pool names did not find it. Or a call of it failed: one was answered
    -- with an error that is not a missing node or VM, or the pool names a provider of another kind.
    -- Or it returns the error that the machine still exists, and the last lookup of the VM found
    -- it. The backend is that of Proxmox, the handles that go-proxmox returns name what was asked
    -- for, and the library's functions on finalizers are as documented.
    pub reconcile_delete-Ends :
        HasFinalizerLaws ext
        → r.new_provider ≡ none
        → holds ext claim ≡ true
        → claim.status.provider_id ≢ ""
        → (h : History)
        → ((b : CtrlResult) × ((reconcile_delete ext r claim h).0 ≡ ok b)
            × Any (Releases ext) (reconcile_delete ext r claim h).1
            × IsSighted ext claim Sight.missing node vmid h
                (h ++ (reconcile_delete ext r claim h).1))
          ⊎ Any (Breaks ext) (reconcile_delete ext r claim h).1
          ⊎ ((e : Error) × ((reconcile_delete ext r claim h).0 ≡ err e)
              × Remains ext claim node vmid h e (h ++ (reconcile_delete ext r claim h).1))
    reconcile_delete-Ends finalizers real held made h =
        elim (Result-cases (reconcile_delete ext r claim h).0) [
          | inl (b, fine) ↦
              let (released, missed) =
                reconcile_delete-IsSighted ext r claim names node vmid parsed finalizers real held
                  made h b fine in
              inl (b, fine, released, missed)
          | inr (e, wrong) ↦ elim (reconcile_delete-Breaks real made held h e wrong) [
            | inl failed ↦ inr (inl failed)
            | inr remains ↦ inr (inr (e, wrong, remains))
          ]
        ]
