-- ===== src/Claim/TearDown.antt =====
-- When the finalizer of a claim with a machine is released.
use xenonite.Base.{
  ap, ◌∙◌, ◌++◌, ◌≡◌, ◌≢◌, refl, false, ◌==◌, eq_iff, Option, none, some, [], arith, Any,
  Bool-cases, inl, inr,
}
use xenonite.Api.NodeClaim.{XenonNodeClaim}
use xenonite.Api.ProxmoxProvider.{ProxmoxProviderSpec}
use xenonite.Exec.{Call, Event, called, read_clock, History, ok, External, wrap, ◌>>=◌}
use xenonite.Exec.Emits.{Allowed, Emits, Emits-wrap, Emits-widen}
use xenonite.Exec.Inversion.{Any-bind_later}
use xenonite.Provider.{Provider, Instance}
use xenonite.Claim.Objects.{proxmox_credentials}
use xenonite.Claim.Methods.{release_if_gone}
use xenonite.Claim.Reconcile.{
  XenonNodeClaimReconciler, factory, resolve_provider, tear_down, reconcile_delete,
}
use xenonite.Claim.OfPool.{IsOfPool, resolve_provider-IsOfPool}
use xenonite.Claim.Quiet.{resolve_provider-IsReading}
use xenonite.Claim.Guard.{IsQuiet, holds}
use xenonite.Claim.Guard.Backend.{
  IsCareful, IsCarefulFactory, reading-IsQuiet, resolved-IsCareful, resolve_provider-factory,
  wrap_ok,
}

-- A write of the claim's metadata, which is what removes the finalizer.
abbrev pub Updates : Event → Type 0
Updates (called (Call.update_claim _) _) = Unit
Updates _ = ⊥

not-quiet-Updates : (e : Event) → Allowed IsQuiet e → Updates e → ⊥
not-quiet-Updates (called (Call.update_claim _) r) q u = q
not-quiet-Updates (called _ r) q u = ground arith
not-quiet-Updates (read_clock t) q u = u

module _ (ext : External) (r : XenonNodeClaimReconciler) (claim : XenonNodeClaim) where
  -- Where the backend is asked after the history `h`, and once more right after the first answer.
  pub record IsDeleted (prov : Provider) (h : History) : Type 0 where
    pub purged_ok : (prov.delete claim.status.provider_id h).0 ≡ ok tt
    pub gone :
        (prov.get claim.status.provider_id (h ++ (prov.delete claim.status.provider_id h).1)).0
        ≡ ok none

  -- Run after `start`, the reconciler resolved the backend of the provider that the claim's pool
  -- names; the backend then deleted the machine with success; and right after that, with no call
  -- between, it was asked for the machine and found none.
  pub record IsVerified (start : History) : Type 0 where
    pub prov : Provider
    pub spec : ProxmoxProviderSpec
    pub of_pool : IsOfPool ext claim start spec
    pub built : prov ≡ factory ext r spec (proxmox_credentials spec.credentials)
    pub purged : IsDeleted prov (start ++ (resolve_provider ext r claim start).1)

  release-none :
      (inst : Option Instance) (h : History)
      → Any Updates (release_if_gone ext claim inst h).1
      → inst ≡ none
  unfolding release_if_gone ◌>>=◌
  release-none none h u = refl
  release-none (some i) h u = absurd u

  torn_down :
      (prov : Provider) (h : History)
      → IsCareful ext prov
      → Any Updates
          ((prov.delete claim.status.provider_id >>= λ _.
              prov.get claim.status.provider_id >>= release_if_gone ext claim)
            h).1
      → IsDeleted prov h
  torn_down prov h careful u =
      let (a, e, u1) =
        Any-bind_later Updates not-quiet-Updates (prov.delete claim.status.provider_id)
          (λ _. prov.get claim.status.provider_id >>= release_if_gone ext claim) h
          (careful.deletes claim.status.provider_id) u in
      let h2 = h ++ (prov.delete claim.status.provider_id h).1 in
      let (inst, e2, u2) =
        Any-bind_later Updates not-quiet-Updates (prov.get claim.status.provider_id)
          (release_if_gone ext claim) h2 (careful.gets claim.status.provider_id) u1 in
      record { purged_ok = e; gone = e2 ∙ ap ok (release-none inst _ u2) }

  resolving-IsQuiet :
      Emits IsQuiet (wrap "cannot resolve provider for cleanup" [] (resolve_provider ext r claim))
  resolving-IsQuiet =
      Emits-wrap _ _ _ (Emits-widen reading-IsQuiet _ (resolve_provider-IsReading ext r claim))

  tear_down-IsVerified :
      (h : History)
      → IsCarefulFactory ext r
      → Any Updates (tear_down ext r claim h).1
      → IsVerified h
  unfolding tear_down wrap
  tear_down-IsVerified h careful u =
      let ((prov, spec), e, u1) =
        Any-bind_later Updates not-quiet-Updates _ _ h resolving-IsQuiet u in
      let e0 = wrap_ok _ _ (resolve_provider ext r claim) h (prov, spec) e in
      record {
        prov = prov;
        spec = spec;
        of_pool = resolve_provider-IsOfPool ext claim r h prov spec e0;
        built = resolve_provider-factory ext r claim h prov spec e0;
        purged = torn_down prov _ (resolved-IsCareful ext r claim h prov spec careful e0) u1;
      }

  -- Where the reconciler of a claim that is being deleted, that has a providerID, writes the
  -- claim's metadata (to release the finalizer), it has read the claim's pool and the provider that
  -- the pool names; the backend of that provider's settings has then deleted the machine with
  -- success; and right after that, with no call between, the backend was asked for the machine and
  -- found none. The backends are careful: Delete and Get touch no claim.
  pub reconcile_delete-IsVerified :
      (h : History)
      → IsCarefulFactory ext r
      → claim.status.provider_id ≢ ""
      → Any Updates (reconcile_delete ext r claim h).1
      → IsVerified h
  unfolding reconcile_delete ◌>>=◌
  reconcile_delete-IsVerified h careful made u = elim (Bool-cases (holds ext claim)) [
    | inr bare ↦ absurd (rw bare at u)
    | inl held ↦ tear_down-IsVerified h careful (rw (held, is_made) at u)
  ]
    where
      is_made : (claim.status.provider_id == "") ≡ false
      is_made = ground (arith, eq_iff claim.status.provider_id "")
