-- ===== src/Claim/OfPool.antt =====
-- The backend that resolveProvider builds.
use xenonite.Base.{◌≡◌, ◌∙◌, refl, [], ◌∷◌, ◌++◌, none, inl, inr, arith, eq_iff}
use xenonite.Api.NodeClaim.{XenonNodeClaim}
use xenonite.Api.NodePool.{XenonNodePool}
use xenonite.Api.ProxmoxProvider.{ProxmoxProviderSpec, ProxmoxProvider}
use xenonite.Provider.{Provider}
use xenonite.Exec.{Call, called, History, ok, External, request, ◌>>=◌}
use xenonite.Exec.Failures.{Result-cases}
use xenonite.Proxmox.{proxmox_provider}
use xenonite.Claim.Objects.{proxmox_credentials}
use xenonite.Claim.Reconcile.{XenonNodeClaimReconciler, factory, resolve_provider}
use xenonite.Claim.Guard.Backend.{resolve_provider-factory}

module _ (ext : External) (claim : XenonNodeClaim) where
  -- The settings are those of the ProxmoxProvider that the claim's pool names, as both were read
  -- after the history.
  pub record IsOfPool (h : History) (spec : ProxmoxProviderSpec) : Type 0 where
    pub pool : XenonNodePool
    pub provider : ProxmoxProvider
    pub pool_read : ext.answer h (Call.get_pool claim.spec.node_pool_ref) ≡ ok pool
    pub kind : pool.spec.provider_ref.kind ≡ "ProxmoxProvider"
    pub provider_read :
        ext.answer
          (h ++ called (Call.get_pool claim.spec.node_pool_ref) (ok pool) ∷ [])
          (Call.get_provider pool.spec.provider_ref.name)
        ≡ ok provider
    pub settings : provider.spec ≡ spec

  module _ (r : XenonNodeClaimReconciler) where
    pub resolve_provider-IsOfPool :
        (h : History) (prov : Provider) (spec : ProxmoxProviderSpec)
        → (resolve_provider ext r claim h).0 ≡ ok (prov, spec)
        → IsOfPool h spec
    unfolding resolve_provider ◌>>=◌ request
    resolve_provider-IsOfPool h prov spec e =
        elim (Result-cases (ext.answer h (Call.get_pool claim.spec.node_pool_ref))) [
          | inr (er, a) ↦ absurd (ground (arith, a))
          | inl (pool, a) ↦
              elim (Result-cases (
                ext.answer (h ++ called (Call.get_pool claim.spec.node_pool_ref) (ok pool) ∷ [])
                  (Call.get_provider pool.spec.provider_ref.name))) [
                    | inr (er, b) ↦ absurd (ground (arith, a, b))
                    | inl (pp, b) ↦ record {
                      pool = pool;
                      provider = pp;
                      pool_read = a;
                      kind =
                          ground (arith, a, eq_iff pool.spec.provider_ref.kind "ProxmoxProvider");
                      provider_read = b;
                      settings = ground (arith, a, b);
                    }
                  ]
        ]

    factory-proxmox :
        r.new_provider ≡ none
        → (spec : ProxmoxProviderSpec)
        → factory ext r spec (proxmox_credentials spec.credentials)
          ≡ proxmox_provider ext spec (proxmox_credentials spec.credentials)
    unfolding factory
    factory-proxmox real spec = rw real refl

    -- The backend that is resolved is that of Proxmox.
    pub resolved-proxmox :
        r.new_provider ≡ none
        → (h : History) (prov : Provider) (spec : ProxmoxProviderSpec)
        → (resolve_provider ext r claim h).0 ≡ ok (prov, spec)
        → prov ≡ proxmox_provider ext spec (proxmox_credentials spec.credentials)
    resolved-proxmox real h prov spec e =
        resolve_provider-factory ext r claim h prov spec e ∙ factory-proxmox real spec
