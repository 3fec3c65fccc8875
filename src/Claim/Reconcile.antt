-- ===== src/Claim/Reconcile.antt =====
-- internal/controller/xenonnodeclaim_controller.go: the reconciler.
use xenonite.Base.{String, not, ◌==◌, Option, none, some, [], ◌∷◌, if◌then◌else◌}
use xenonite.Base.Dict.{lookup}
use xenonite.Api.Core.{Error, error_text, str, errorf, is_zero, CtrlResult, condition_false}
use xenonite.Api.Labels.{finalizer_node_claim}
use xenonite.Api.NodeClaim.{XenonNodeClaim}
use xenonite.Api.ProxmoxProvider.{ProxmoxProviderSpec, ProxmoxCredentials, SecretKeyRef}
use xenonite.Exec.{
  Result, ok, err, Exec, External, get_claim, get_pool, get_provider, get_secret, pure, raise, lift,
  attempt, wrap, request, ◌>>=◌, ◌>>◌,
}
use xenonite.Provider.{Provider}
use xenonite.Proxmox.{proxmox_provider}
use xenonite.Claim.Objects.{done, proxmox_credentials}
use xenonite.Claim.Methods.{
  set_condition, fail_with_status, remove_finalizer, ensure_finalizer, reconcile_readiness,
  with_user_data, release_if_gone,
}

-- return ctrl.Result{}, client.IgnoreNotFound(err)
unfoldable pub ignored : Option Error → Exec CtrlResult
ignored none = pure done
ignored (some e) = raise e

pub record XenonNodeClaimReconciler : Type 0 where
  pub new_provider : Option (ProxmoxProviderSpec → ProxmoxCredentials → Provider)
  pub system_namespace : String

unfoldable pub secret_value : String → SecretKeyRef → Option String → Exec String
secret_value namespace ref none =
    raise (errorf "secret %s/%s has no key %q" (str namespace ∷ str ref.name ∷ str ref.key ∷ []))
secret_value namespace ref (some v) = pure v

module _ (ext : External) (r : XenonNodeClaimReconciler) where
  unfoldable pub read_secret_key : SecretKeyRef → Exec String
  unfolding secret_value
  read_secret_key ref = do
    secret ←
        wrap "get secret %s/%s" (str r.system_namespace ∷ str ref.name ∷ [])
          (request ext (get_secret r.system_namespace ref.name))
    secret_value r.system_namespace ref (lookup ref.key secret.entries)

  unfoldable pub render_cloud_init : XenonNodeClaim → ProxmoxProviderSpec → Exec String
  unfolding read_secret_key
  render_cloud_init claim spec = do
    token ← read_secret_key spec.bootstrap.token_secret_ref
    execute ←
        wrap "parse cloud-init template" [] (lift (ext.parse_template spec.cloud_init.user_data))
    wrap "render cloud-init template" [] (
        lift (
          execute (
            ("NodeName", claim.metadata.name)
            ∷ ("Server", spec.bootstrap.server)
            ∷ ("Token", token)
            ∷ [])))

  unfoldable pub factory : ProxmoxProviderSpec → ProxmoxCredentials → Provider
  factory spec creds = elim r.new_provider [
    | none ↦ proxmox_provider ext spec creds
    | some f ↦ f spec creds
  ]

  unfoldable pub resolve_provider : XenonNodeClaim → Exec (Provider × ProxmoxProviderSpec)
  resolve_provider claim = do
    pool ←
        wrap "get nodepool %q" (str claim.spec.node_pool_ref ∷ [])
          (request ext (get_pool claim.spec.node_pool_ref))
    let ref = pool.spec.provider_ref
    if not (ref.kind == "ProxmoxProvider")
        then raise (errorf "unsupported provider kind %q" (str ref.kind ∷ []))
        else (do
          pp ←
              wrap "get proxmoxprovider %q" (str ref.name ∷ [])
                (request ext (get_provider ref.name))
          pure (factory pp.spec (proxmox_credentials pp.spec.credentials), pp.spec))

  unfoldable pub reconcile_create :
      XenonNodeClaim → Provider → ProxmoxProviderSpec → Exec CtrlResult
  unfolding with_user_data
  reconcile_create claim prov spec = do
    user_data ← attempt (render_cloud_init claim spec)
    with_user_data ext claim prov user_data

  -- `reconcileDelete` from `resolveProvider` on.
  unfoldable pub tear_down : XenonNodeClaim → Exec CtrlResult
  unfolding release_if_gone
  tear_down claim = do
    (prov, _) ← wrap "cannot resolve provider for cleanup" [] (resolve_provider claim)
    prov.delete claim.status.provider_id
    inst ← prov.get claim.status.provider_id
    release_if_gone ext claim inst

  unfoldable pub reconcile_delete : XenonNodeClaim → Exec CtrlResult
  unfolding tear_down
  reconcile_delete claim =
      if not (ext.contains_finalizer claim.metadata.finalizers finalizer_node_claim)
      then pure done
      else if claim.status.provider_id == ""
      then remove_finalizer ext claim
      else tear_down claim

  unfoldable pub with_provider :
      XenonNodeClaim → Result (Provider × ProxmoxProviderSpec) → Exec CtrlResult
  unfolding fail_with_status
  with_provider claim (err e) =
      fail_with_status ext
        (set_condition ext claim "Ready" condition_false "ProviderResolveFailed" (error_text e)) e
  with_provider claim (ok (prov, spec)) =
      if claim.status.provider_id == ""
      then reconcile_create claim prov spec
      else reconcile_readiness ext claim

  unfoldable pub reconcile_live : XenonNodeClaim → Exec CtrlResult
  unfolding with_provider
  reconcile_live claim = do
    claim' ← ensure_finalizer ext claim
    resolved ← attempt (resolve_provider claim')
    with_provider claim' resolved

  unfoldable pub with_claim : Result XenonNodeClaim → Exec CtrlResult
  with_claim (err e) = ignored (ext.ignore_not_found e)
  with_claim (ok claim) =
      if not (is_zero claim.metadata.deletion_timestamp)
      then reconcile_delete claim
      else reconcile_live claim

  -- Reconcile
  unfoldable pub reconcile_claim : String → Exec CtrlResult
  unfolding with_claim
  reconcile_claim name = do found ← attempt (request ext (get_claim name)); with_claim found
