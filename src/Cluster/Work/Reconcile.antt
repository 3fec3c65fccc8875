-- ===== src/Cluster/Work/Reconcile.antt =====
-- Which calls one `Reconcile` of a claim makes, with a backend that calls Proxmox only.
use xenonite.Base.{String, ◌==◌, Option, none, some, ◌≡◌, sym, subst, Bool-cases, inl, inr}
use xenonite.Api.Core.{Error}
use xenonite.Api.NodeClaim.{XenonNodeClaim}
use xenonite.Api.ProxmoxProvider.{ProxmoxProviderSpec, ProxmoxCredentials}
use xenonite.Provider.{Provider, Instance}
use xenonite.Exec.{Result, ok, err, External, History, request, pure}
use xenonite.Exec.Emits.{
  Emits, Emits-bind, Emits-bind-from, Emits-pure, Emits-raise, Emits-attempt, Emits-wrap,
  Emits-widen, emits_rules,
}
use xenonite.Claim.Objects.{proxmox_credentials, create_request}
use xenonite.Claim.Methods.{with_user_data, ensure_finalizer, remove_finalizer, release_if_gone}
use xenonite.Claim.Reconcile.{
  XenonNodeClaimReconciler, factory, resolve_provider, reconcile_create, tear_down,
  reconcile_delete, with_provider, reconcile_live, with_claim, ignored, reconcile_claim,
}
use xenonite.Claim.Quiet.{
  fail_with_status-IsReporting, after_create-IsReporting, reconcile_readiness-IsReporting,
  render_cloud_init-IsReading, resolve_provider-IsReading,
}
use xenonite.Claim.Guard.Backend.{attempt_ok, wrap_ok, resolve_provider-factory}
use xenonite.Cluster.Work.{IsWork, CallsMachines, reading-IsWork, reporting-IsWork, machine-IsWork}

-- Whatever spec and credentials the factory is given.
abbrev pub CallsMachinesFactory : External → XenonNodeClaimReconciler → Type 0
CallsMachinesFactory ext r =
    (spec : ProxmoxProviderSpec) (creds : ProxmoxCredentials)
    → CallsMachines (factory ext r spec creds)

module _ (ext : External) (r : XenonNodeClaimReconciler) (calls : CallsMachinesFactory ext r) where
  resolved-CallsMachines :
      (c : XenonNodeClaim) (g : History) (prov : Provider) (spec : ProxmoxProviderSpec)
      → (resolve_provider ext r c g).0 ≡ ok (prov, spec)
      → CallsMachines prov
  resolved-CallsMachines c g prov spec e =
      subst CallsMachines (sym (resolve_provider-factory ext r c g prov spec e))
        (calls spec (proxmox_credentials spec.credentials))

  with_user_data-IsWork :
      (c : XenonNodeClaim) (prov : Provider) (user_data : Result String)
      → CallsMachines prov
      → Emits IsWork (with_user_data ext c prov user_data)
  unfolding with_user_data
  with_user_data-IsWork c prov (err e) m =
      Emits-widen reporting-IsWork _ (fail_with_status-IsReporting ext _ e)
  with_user_data-IsWork c prov (ok user_data) m =
      Emits-bind _ _ (Emits-widen machine-IsWork _ (m.creates (create_request c user_data)))
        (λ (id, e). Emits-widen reporting-IsWork _ (after_create-IsReporting ext _ e))

  reconcile_create-IsWork :
      (c : XenonNodeClaim) (prov : Provider) (spec : ProxmoxProviderSpec)
      → CallsMachines prov
      → Emits IsWork (reconcile_create ext r c prov spec)
  unfolding reconcile_create
  reconcile_create-IsWork c prov spec m =
      Emits-bind _ _
        (Emits-attempt _ (Emits-widen reading-IsWork _ (render_cloud_init-IsReading ext r c spec)))
        (λ user_data. with_user_data-IsWork c prov user_data m)

  with_provider-IsWork :
      (c : XenonNodeClaim) (g : History) (res : Result (Provider × ProxmoxProviderSpec))
      → (resolve_provider ext r c g).0 ≡ res
      → Emits IsWork (with_provider ext r c res)
  unfolding with_provider
  with_provider-IsWork c g (err e) from =
      Emits-widen reporting-IsWork _ (fail_with_status-IsReporting ext _ e)
  with_provider-IsWork c g (ok (prov, spec)) from = elim (Bool-cases (c.status.provider_id == "")) [
    | inl new ↦
        rw new (reconcile_create-IsWork c prov spec (resolved-CallsMachines c g prov spec from))
    | inr old ↦ rw old (Emits-widen reporting-IsWork _ (reconcile_readiness-IsReporting ext c))
  ]

  resolving-IsWork : (c : XenonNodeClaim) → Emits IsWork (resolve_provider ext r c)
  resolving-IsWork c = Emits-widen reading-IsWork _ (resolve_provider-IsReading ext r c)

  ensure_finalizer-IsWork : (c : XenonNodeClaim) → Emits IsWork (ensure_finalizer ext c)
  unfolding ensure_finalizer request pure
  ensure_finalizer-IsWork c = search emits_rules

  reconcile_live-IsWork : (c : XenonNodeClaim) → Emits IsWork (reconcile_live ext r c)
  unfolding reconcile_live
  reconcile_live-IsWork c = Emits-bind _ _ (ensure_finalizer-IsWork c) (λ c'.
      Emits-bind-from _ _ (Emits-attempt _ (resolving-IsWork c'))
        (λ res g e. with_provider-IsWork c' g res (attempt_ok _ _ _ e)))

  remove_finalizer-IsWork : (c : XenonNodeClaim) → Emits IsWork (remove_finalizer ext c)
  unfolding remove_finalizer
  remove_finalizer-IsWork c = search emits_rules

  release_if_gone-IsWork :
      (c : XenonNodeClaim) (inst : Option Instance) → Emits IsWork (release_if_gone ext c inst)
  unfolding release_if_gone
  release_if_gone-IsWork c none = remove_finalizer-IsWork c
  release_if_gone-IsWork c (some inst) = search emits_rules

  tear_down-IsWork : (c : XenonNodeClaim) → Emits IsWork (tear_down ext r c)
  unfolding tear_down
  tear_down-IsWork c =
      Emits-bind-from _ _ (Emits-wrap _ _ _ (resolving-IsWork c)) (λ (prov, spec) g e.
        let m = resolved-CallsMachines c g prov spec (wrap_ok _ _ _ g (prov, spec) e) in
        Emits-bind _ _ (Emits-widen machine-IsWork _ (m.deletes c.status.provider_id)) (λ _.
          Emits-bind _ _ (Emits-widen machine-IsWork _ (m.gets c.status.provider_id))
            (release_if_gone-IsWork c)))

  reconcile_delete-IsWork : (c : XenonNodeClaim) → Emits IsWork (reconcile_delete ext r c)
  unfolding reconcile_delete
  reconcile_delete-IsWork c = search (emits_rules, remove_finalizer-IsWork, tear_down-IsWork)

  ignored-IsWork : (o : Option Error) → Emits IsWork (ignored o)
  unfolding ignored
  ignored-IsWork none = Emits-pure _
  ignored-IsWork (some e) = Emits-raise e

  with_claim-IsWork : (found : Result XenonNodeClaim) → Emits IsWork (with_claim ext r found)
  unfolding with_claim
  with_claim-IsWork (err e) = ignored-IsWork (ext.ignore_not_found e)
  with_claim-IsWork (ok c) = search (emits_rules, reconcile_delete-IsWork, reconcile_live-IsWork)

  -- Whatever the answers, one `Reconcile` of a claim reads the claim and what it refers to, writes
  -- the claim, its status and its node, and calls Proxmox: it makes, deletes and patches no claim
  -- and writes no pool, if the backend calls Proxmox only.
  pub reconcile_claim-IsWork : (name : String) → Emits IsWork (reconcile_claim ext r name)
  unfolding reconcile_claim
  reconcile_claim-IsWork name = search (emits_rules, with_claim-IsWork)
