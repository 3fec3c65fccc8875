-- ===== src/Cluster/TearDown.antt =====
-- One teardown of a claim leaves every ledger alone, with backends that account for their VMs.
use xenonite.Base.{String, ◌==◌, ◌≡◌, sym, subst, Option, none, some, [], inl, inr, Bool-cases}
use xenonite.Api.Labels.{finalizer_node_claim}
use xenonite.Api.NodeClaim.{XenonNodeClaim}
use xenonite.Api.ProxmoxProvider.{ProxmoxProviderSpec, ProxmoxCredentials}
use xenonite.Provider.{Provider, Instance}
use xenonite.Exec.{Call, ok, History, External, Exec, wrap}
use xenonite.Exec.Emits.{Emits, Emits-bind, Emits-widen, Emits-wrap, emits_rules}
use xenonite.Exec.Triple.{Triple, Triple-bind, Triple-pure, Triple-keep}
use xenonite.Claim.Objects.{proxmox_credentials}
use xenonite.Claim.Methods.{remove_finalizer, release_if_gone}
use xenonite.Claim.Reconcile.{
  XenonNodeClaimReconciler, factory, resolve_provider, tear_down, reconcile_delete,
}
use xenonite.Claim.Quiet.{IsReading, resolve_provider-IsReading}
use xenonite.Claim.Guard.Backend.{wrap_ok, resolve_provider-factory}
use xenonite.Cluster.Ledger.{IsOnce, IsNeutral}
use xenonite.Cluster.Server.{Once, Once-stable, neutral-keeps}
use xenonite.Cluster.Backend.{IsAccountable}

pub reading-IsNeutral : (c : Call) → IsReading c → IsNeutral c
reading-IsNeutral (Call.update_claim_status _) h = h
reading-IsNeutral (Call.pve_clone _ _) h = h
reading-IsNeutral _ h = tt

-- Every backend that the reconciler may build is accountable.
abbrev pub IsAccountableFactory : External → XenonNodeClaimReconciler → Type 0
IsAccountableFactory ext r =
    (spec : ProxmoxProviderSpec) (creds : ProxmoxCredentials)
    → IsAccountable ext (factory ext r spec creds)

module _ (ext : External) (w : String) (r : XenonNodeClaimReconciler)
    (accountable : IsAccountableFactory ext r) where
  pub resolved-IsAccountable :
      (c : XenonNodeClaim) (g : History) (prov : Provider) (spec : ProxmoxProviderSpec)
      → (resolve_provider ext r c g).0 ≡ ok (prov, spec)
      → IsAccountable ext prov
  resolved-IsAccountable c g prov spec e =
      subst (IsAccountable ext) (sym (resolve_provider-factory ext r c g prov spec e))
        (accountable spec (proxmox_credentials spec.credentials))

  remove_finalizer-IsNeutral : (c : XenonNodeClaim) → Emits IsNeutral (remove_finalizer ext c)
  unfolding remove_finalizer
  remove_finalizer-IsNeutral c = search emits_rules

  release_if_gone-IsNeutral :
      (c : XenonNodeClaim) (inst : Option Instance) → Emits IsNeutral (release_if_gone ext c inst)
  unfolding release_if_gone
  release_if_gone-IsNeutral c none = remove_finalizer-IsNeutral c
  release_if_gone-IsNeutral c (some inst) = search emits_rules

  quietly :
      {A : Type 0} (m : Exec A) → Emits IsNeutral m → Triple (λ h. Once w h) m (λ _ h. Once w h)
  quietly m e = neutral-keeps w IsOnce m (λ l o. o.0) e

  tear_down-Once :
      (c : XenonNodeClaim) → Triple (λ h. Once w h) (tear_down ext r c) (λ _ h. Once w h)
  unfolding tear_down
  tear_down-Once c =
      Triple-bind _ _
        (λ res h.
          Once w h
          × ((g : History) × ((wrap "cannot resolve provider for cleanup" []
                  (resolve_provider ext r c) g).0
                ≡ res)))
        (Triple-keep IsNeutral _
          (Emits-wrap _ _ _ (Emits-widen reading-IsNeutral _ (resolve_provider-IsReading ext r c)))
          (Once-stable w))
        (λ (prov, spec). record {
          at = λ h o.
              let acc =
                resolved-IsAccountable c o.1.0 prov spec (wrap_ok _ _ _ o.1.0 (prov, spec) o.1.1) in
              (quietly _ (
                  Emits-bind _ _ (acc.deletes c.status.provider_id) (λ _.
                    Emits-bind _ _ (acc.gets c.status.provider_id)
                      (release_if_gone-IsNeutral c)))).at
                h o.0;
        })
        (λ _ _ o. o.0)

  pub reconcile_delete-Once :
      (c : XenonNodeClaim) → Triple (λ h. Once w h) (reconcile_delete ext r c) (λ _ h. Once w h)
  unfolding reconcile_delete
  reconcile_delete-Once c =
      elim (Bool-cases (ext.contains_finalizer c.metadata.finalizers finalizer_node_claim)) [
        | inr gone ↦ rw gone (Triple-pure _ (λ h o. o))
        | inl held ↦ rw held (elim (Bool-cases (c.status.provider_id == "")) [
          | inl none_made ↦ rw none_made (quietly _ (remove_finalizer-IsNeutral c))
          | inr made ↦ rw made (tear_down-Once c)
        ])
      ]
