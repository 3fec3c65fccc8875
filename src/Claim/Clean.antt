-- ===== src/Claim/Clean.antt =====
-- A teardown that succeeds has missed the machine in its last lookup.
use xenonite.Base.{
  ap, String, ◌++◌, ◌≡◌, ◌≢◌, ◌∙◌, refl, subst, sym, true, false, ◌==◌, eq_iff, Option, none, some,
  Any, arith,
}
use xenonite.Base.Int.{ℤ}
use xenonite.Api.Core.{CtrlResult}
use xenonite.Api.NodeClaim.{XenonNodeClaim}
use xenonite.Api.ProxmoxProvider.{ProxmoxProviderSpec}
use xenonite.Provider.{Instance, Provider}
use xenonite.Exec.{History, ok, External, raise, request, ◌>>=◌}
use xenonite.Exec.Laws.{HasFinalizerLaws}
use xenonite.Exec.Triple.{Triple}
use xenonite.Exec.Yields.{Yields, Yields-any, Yields-of, Yields-wrap, Yields-weaken, Yields-bind}
use xenonite.Proxmox.{ProxmoxBackend, new_backend, proxmox_provider, delete_machine, get_machine}
use xenonite.Proxmox.ProviderId.{parse_provider_id}
use xenonite.Proxmox.Machines.{Machine, Sight, sight, look_all}
use xenonite.Proxmox.Machines.Laws.{NamesHandles, look_all-append}
use xenonite.Proxmox.Presence.{machine}
use xenonite.Proxmox.Presence.Sight.{Shows, get_machine-Shows}
use xenonite.Claim.Objects.{proxmox_credentials}
use xenonite.Claim.Methods.{remove_finalizer, release_if_gone}
use xenonite.Claim.Reconcile.{
  XenonNodeClaimReconciler, resolve_provider, tear_down, reconcile_delete,
}
use xenonite.Claim.Guard.{holds}
use xenonite.Claim.OfPool.{IsOfPool, resolve_provider-IsOfPool, resolved-proxmox}
use xenonite.Claim.Release.{Releases, reconcile_delete-Releases}

module _ (ext : External) (claim : XenonNodeClaim) where
  -- In the Proxmox of the claim's pool, the last lookup of the VM found that: the pool as it was
  -- read after the history `start`.
  pub record IsSighted (s : Sight) (node : String) (vmid : ℤ) (start h : History) : Type 0 where
    pub spec : ProxmoxProviderSpec
    pub of_pool : IsOfPool ext claim start spec
    pub sighted :
        sight ext (machine (new_backend spec (proxmox_credentials spec.credentials)) node vmid) h
        ≡ s

  remove_finalizer-sight :
      (m : Machine) (s : Sight) (h : History)
      → look_all ext m s (remove_finalizer ext claim h).1 ≡ s
  unfolding remove_finalizer ◌>>=◌ request
  remove_finalizer-sight m s h = ground arith

  release_if_gone-missing :
      (m : Machine) (inst : Option Instance)
      → Triple
          (λ h. Shows inst (sight ext m h))
          (release_if_gone ext claim inst)
          (Yields (λ _ h. sight ext m h ≡ Sight.missing))
  unfolding release_if_gone raise
  release_if_gone-missing m none = Yields-of _ (λ h _ missing _.
      look_all-append ext m Sight.unseen h _ ∙ remove_finalizer-sight m _ h ∙ missing)
  release_if_gone-missing m (some inst) = Yields-of _ (λ h _ _ q. cc)

module _ (ext : External) (r : XenonNodeClaimReconciler) (claim : XenonNodeClaim)
    (names : NamesHandles ext) (node : String) (vmid : ℤ)
    (parsed : parse_provider_id claim.status.provider_id ≡ ok (node, vmid)) where
  machine_missing :
      (p : ProxmoxBackend)
      → Triple
          (λ h. Unit {0})
          (delete_machine ext p claim.status.provider_id >>= λ _.
            get_machine ext p claim.status.provider_id >>= release_if_gone ext claim)
          (Yields (λ _ h. sight ext (machine p node vmid) h ≡ Sight.missing))
  machine_missing p =
      Yields-bind _ _ (λ _ _. Unit {0}) (Yields-any _)
        (λ _.
          Yields-bind _ _ (λ inst h. Shows inst (sight ext (machine p node vmid) h))
            (get_machine-Shows ext names p node vmid _ parsed)
            (release_if_gone-missing ext claim (machine p node vmid)))

  module _ (real : r.new_provider ≡ none) (start : History) where
    tear_down-IsSighted :
        Triple
          (λ h. h ≡ start)
          (tear_down ext r claim)
          (Yields (λ _. IsSighted ext claim Sight.missing node vmid start))
    unfolding tear_down
    tear_down-IsSighted =
        Yields-bind _ _ IsResolved
          (Yields-wrap _ _ _ (
            Yields-of (resolve_provider ext r claim) (λ h (prov, spec) same e.
              ap (λ g. (resolve_provider ext r claim g).0) (sym same) ∙ e)))
          (λ (prov, spec). record {
            at = λ h e.
                (subst Rest (sym (resolved-proxmox ext claim r real start prov spec e))
                    (rest prov spec e)).at
                  h tt;
          })
      where
        IsResolved : Provider × ProxmoxProviderSpec → History → Type 0
        IsResolved a _ = (resolve_provider ext r claim start).0 ≡ ok a

        Rest : Provider → Type 0
        Rest prov =
            Triple (λ h. Unit {0})
              (prov.delete claim.status.provider_id >>= λ _.
                prov.get claim.status.provider_id >>= release_if_gone ext claim)
              (Yields (λ _. IsSighted ext claim Sight.missing node vmid start))

        rest :
            (prov : Provider) (spec : ProxmoxProviderSpec)
            → (resolve_provider ext r claim start).0 ≡ ok (prov, spec)
            → Rest (proxmox_provider ext spec (proxmox_credentials spec.credentials))
        rest prov spec e =
            Yields-weaken _
              (λ _ h missing. record {
                spec = spec;
                of_pool = resolve_provider-IsOfPool ext claim r start prov spec e;
                sighted = missing;
              })
              (machine_missing (new_backend spec (proxmox_credentials spec.credentials)))

  -- Where the Reconcile of a claim that is being deleted, with the finalizer and a well-formed
  -- providerID, returns no error, it has written the claim without the finalizer, with success, and
  -- the last lookup of the providerID's VM in the Proxmox that the claim's pool names was answered
  -- with "not found", for the VM or its node. The backend is that of Proxmox, the handles that
  -- go-proxmox returns name what was asked for, and the library's functions on finalizers are as
  -- documented.
  pub reconcile_delete-IsSighted :
      HasFinalizerLaws ext
      → r.new_provider ≡ none
      → holds ext claim ≡ true
      → claim.status.provider_id ≢ ""
      → (h : History) (b : CtrlResult) → (reconcile_delete ext r claim h).0 ≡ ok b
      → Any (Releases ext) (reconcile_delete ext r claim h).1
        × IsSighted ext claim Sight.missing node vmid h (h ++ (reconcile_delete ext r claim h).1)
  unfolding reconcile_delete
  reconcile_delete-IsSighted finalizers real held made h b q =
      let unmade : (claim.status.provider_id == "") ≡ false =
        ground (arith, eq_iff claim.status.provider_id "") in
      (
        reconcile_delete-Releases ext finalizers claim held r h b q,
        rw (held, unmade)
            (subst
              (λ res.
                Yields (λ _. IsSighted ext claim Sight.missing node vmid h) res
                  (h ++ (tear_down ext r claim h).1))
              (rw (held, unmade) at q) ((tear_down-IsSighted real h).at h refl)),
      )
