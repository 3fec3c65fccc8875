-- ===== src/Claim/Bounded.antt =====
-- One Reconcile of a claim comes to an end: a bound on its calls and on what it waits for.
use xenonite.Base.{String, not, ◌==◌, Option, none, some, ◌≡◌, refl, subst, sym, ◌∙◌, arith}
use xenonite.Api.Core.{Error, is_zero}
use xenonite.Api.Labels.{finalizer_node_claim}
use xenonite.Api.NodeClaim.{XenonNodeClaim}
use xenonite.Api.ProxmoxProvider.{ProxmoxProviderSpec}
use xenonite.Exec.{Result, ok, err, External, History, Call, ◌>>=◌, request}
use xenonite.Exec.Bounded.{
  Bounded, Bounded-more, Bounded-raise, Bounded-pure, Bounded-if, Bounded-attempt, Bounded-wrap,
  Bounded-bind, Bounded-bind_from, Bounded-request,
}
use xenonite.Provider.{Provider, CreateRequest, Instance}
use xenonite.Proxmox.{new_backend}
use xenonite.Proxmox.Bounded.{create_machine-Bounded, delete_machine-Bounded, get_machine-Bounded}
use xenonite.Claim.Objects.{proxmox_credentials}
use xenonite.Claim.Methods.{
  fail_with_status, remove_finalizer, ensure_finalizer, label_node, reconcile_readiness,
  with_user_data, after_create, release_if_gone,
}
use xenonite.Claim.Reconcile.{
  XenonNodeClaimReconciler, render_cloud_init, resolve_provider, reconcile_create, tear_down,
  reconcile_delete, with_provider, reconcile_live, with_claim, ignored, reconcile_claim,
}
use xenonite.Claim.Guard.Backend.{wrap_ok, attempt_ok}
use xenonite.Claim.OfPool.{resolved-proxmox}

-- A backend whose methods make as few calls as that of Proxmox.
record IsBrief (prov : Provider) : Type 0 where
  pub creates : (req : CreateRequest) → Bounded 13 1800 (prov.create req)
  pub deletes : (id : String) → Bounded 6 1200 (prov.delete id)
  pub gets : (id : String) → Bounded 2 0 (prov.get id)

module _ (ext : External) where
  fail_with_status-Bounded :
      (claim : XenonNodeClaim) (e : Error) → Bounded 1 0 (fail_with_status ext claim e)
  unfolding fail_with_status ◌>>=◌ request
  fail_with_status-Bounded claim e = record { at = λ h. ground arith }

  after_create-Bounded :
      (claim : XenonNodeClaim) (e : Option Error) → Bounded 1 0 (after_create ext claim e)
  unfolding after_create ◌>>=◌ request
  after_create-Bounded claim none = record { at = λ h. ground arith }
  after_create-Bounded claim (some e) = fail_with_status-Bounded _ e

  with_user_data-Bounded :
      (claim : XenonNodeClaim) (prov : Provider) (r : Result String)
      → IsBrief prov
      → Bounded 14 1800 (with_user_data ext claim prov r)
  unfolding with_user_data
  with_user_data-Bounded claim prov (err e) brief =
      Bounded-more 14 1800 _ (omega arith) (omega arith) (fail_with_status-Bounded _ e)
  with_user_data-Bounded claim prov (ok user_data) brief =
      Bounded-bind _ _ (brief.creates _) (λ (id, e). after_create-Bounded _ e)

  remove_finalizer-Bounded : (claim : XenonNodeClaim) → Bounded 1 0 (remove_finalizer ext claim)
  unfolding remove_finalizer ◌>>=◌ request
  remove_finalizer-Bounded claim = record { at = λ h. ground arith }

  ensure_finalizer-Bounded : (claim : XenonNodeClaim) → Bounded 1 0 (ensure_finalizer ext claim)
  unfolding ensure_finalizer ◌>>=◌ request
  ensure_finalizer-Bounded claim = record { at = λ h. ground arith }

  reconcile_readiness-Bounded :
      (claim : XenonNodeClaim) → Bounded 3 0 (reconcile_readiness ext claim)
  unfolding reconcile_readiness label_node ◌>>=◌ request
  reconcile_readiness-Bounded claim = record { at = λ h. ground arith }

  release_if_gone-Bounded :
      (claim : XenonNodeClaim) (inst : Option Instance)
      → Bounded 1 0 (release_if_gone ext claim inst)
  unfolding release_if_gone
  release_if_gone-Bounded claim none = remove_finalizer-Bounded claim
  release_if_gone-Bounded claim (some inst) =
      Bounded-more 1 0 _ (omega arith) (omega arith) (Bounded-raise _)

ignored-Bounded : (e : Option Error) → Bounded 0 0 (ignored e)
unfolding ignored
ignored-Bounded none = Bounded-pure _
ignored-Bounded (some e) = Bounded-raise e

module _ (ext : External) (r : XenonNodeClaimReconciler) (real : r.new_provider ≡ none) where
  render_cloud_init-Bounded :
      (claim : XenonNodeClaim) (spec : ProxmoxProviderSpec)
      → Bounded 1 0 (render_cloud_init ext r claim spec)
  unfolding render_cloud_init ◌>>=◌ request
  render_cloud_init-Bounded claim spec = record { at = λ h. ground arith }

  resolve_provider-Bounded : (claim : XenonNodeClaim) → Bounded 2 0 (resolve_provider ext r claim)
  unfolding resolve_provider ◌>>=◌ request
  resolve_provider-Bounded claim = record { at = λ h. ground arith }

  resolved-IsBrief :
      (claim : XenonNodeClaim) (h : History) (prov : Provider) (spec : ProxmoxProviderSpec)
      → (resolve_provider ext r claim h).0 ≡ ok (prov, spec)
      → IsBrief prov
  resolved-IsBrief claim h prov spec e =
      let p = new_backend spec (proxmox_credentials spec.credentials) in
      subst IsBrief (sym (resolved-proxmox ext claim r real h prov spec e)) (record {
        creates = create_machine-Bounded ext p;
        deletes = delete_machine-Bounded ext p;
        gets = get_machine-Bounded ext p;
      })

  reconcile_create-Bounded :
      (claim : XenonNodeClaim) (prov : Provider) (spec : ProxmoxProviderSpec)
      → IsBrief prov
      → Bounded 15 1800 (reconcile_create ext r claim prov spec)
  unfolding reconcile_create
  reconcile_create-Bounded claim prov spec brief =
      Bounded-bind _ _ (Bounded-attempt _ (render_cloud_init-Bounded claim spec))
        (λ user_data. with_user_data-Bounded ext claim prov user_data brief)

  with_provider-Bounded :
      (claim : XenonNodeClaim) (res : Result (Provider × ProxmoxProviderSpec))
      → ((prov : Provider) (spec : ProxmoxProviderSpec) → res ≡ ok (prov, spec) → IsBrief prov)
      → Bounded 15 1800 (with_provider ext r claim res)
  unfolding with_provider
  with_provider-Bounded claim (err e) brief =
      Bounded-more 15 1800 _ (omega arith) (omega arith) (fail_with_status-Bounded ext _ e)
  with_provider-Bounded claim (ok (prov, spec)) brief =
      Bounded-if (claim.status.provider_id == "") _ _
        (reconcile_create-Bounded claim prov spec (brief prov spec refl))
        (Bounded-more 15 1800 _ (omega arith) (omega arith) (reconcile_readiness-Bounded ext claim))

  reconcile_live-Bounded : (claim : XenonNodeClaim) → Bounded 18 1800 (reconcile_live ext r claim)
  unfolding reconcile_live
  reconcile_live-Bounded claim = Bounded-bind _ _ (ensure_finalizer-Bounded ext claim) (λ claim'.
      Bounded-bind_from _ _ (Bounded-attempt _ (resolve_provider-Bounded claim')) (λ res g e.
        with_provider-Bounded claim' res (λ prov spec same.
          resolved-IsBrief claim' g prov spec
            (attempt_ok (resolve_provider ext r claim') g res e ∙ same))))

  tear_down-Bounded : (claim : XenonNodeClaim) → Bounded 11 1200 (tear_down ext r claim)
  unfolding tear_down
  tear_down-Bounded claim =
      Bounded-bind_from _ _ (Bounded-wrap _ _ _ (resolve_provider-Bounded claim))
        (λ (prov, spec) g e.
          let brief =
            resolved-IsBrief claim g prov spec
              (wrap_ok _ _ (resolve_provider ext r claim) g (prov, spec) e) in
          Bounded-bind _ _ (brief.deletes _)
            (λ _. Bounded-bind _ _ (brief.gets _) (release_if_gone-Bounded ext claim)))

  reconcile_delete-Bounded :
      (claim : XenonNodeClaim) → Bounded 11 1200 (reconcile_delete ext r claim)
  unfolding reconcile_delete
  reconcile_delete-Bounded claim =
      Bounded-if (not (ext.contains_finalizer claim.metadata.finalizers finalizer_node_claim)) _ _
        (Bounded-more 11 1200 _ (omega arith) (omega arith) (Bounded-pure _))
        (Bounded-if (claim.status.provider_id == "") _ _
          (Bounded-more 11 1200 _ (omega arith) (omega arith) (remove_finalizer-Bounded ext claim))
          (tear_down-Bounded claim))

  with_claim-Bounded : (found : Result XenonNodeClaim) → Bounded 18 1800 (with_claim ext r found)
  unfolding with_claim
  with_claim-Bounded (err e) =
      Bounded-more 18 1800 _ (omega arith) (omega arith) (ignored-Bounded (ext.ignore_not_found e))
  with_claim-Bounded (ok claim) =
      Bounded-if (not (is_zero claim.metadata.deletion_timestamp)) _ _
        (Bounded-more 18 1800 _ (omega arith) (omega arith) (reconcile_delete-Bounded claim))
        (reconcile_live-Bounded claim)

  -- Whatever is answered, one Reconcile of a claim ends after at most 19 calls, and the timeouts of
  -- the Proxmox tasks that it waits for add up to at most 1800 seconds. The backend is that of
  -- Proxmox.
  pub reconcile_claim-Bounded : (name : String) → Bounded 19 1800 (reconcile_claim ext r name)
  unfolding reconcile_claim
  reconcile_claim-Bounded name =
      Bounded-bind _ _ (Bounded-attempt _ (Bounded-request ext (Call.get_claim name)))
        with_claim-Bounded
