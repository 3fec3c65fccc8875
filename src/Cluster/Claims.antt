-- ===== src/Cluster/Claims.antt =====
-- One `Reconcile` of a claim keeps every claim's ledger in order.
use xenonite.Base.{String, ◌==◌, eq_iff, ◌≡◌, sym, ◌∙◌, Option, none, some, inl, inr, Bool-cases}
use xenonite.Api.Core.{is_zero, Error}
use xenonite.Api.Labels.{finalizer_node_claim}
use xenonite.Api.NodeClaim.{XenonNodeClaim}
use xenonite.Api.ProxmoxProvider.{ProxmoxProviderSpec}
use xenonite.Provider.{Provider}
use xenonite.Exec.{Result, ok, err, History, External, attempt, ◌>>=◌}
use xenonite.Exec.Emits.{Emits-widen, Emits-attempt}
use xenonite.Exec.Triple.{
  Triple, Triple-bind, Triple-before, Triple-pure, Triple-raise, Triple-attempt, Triple-keep,
  Attempted,
}
use xenonite.Claim.Objects.{record_id, create_request, with_finalizers, poll}
use xenonite.Claim.Methods.{after_create, with_user_data, ensure_finalizer}
use xenonite.Claim.Reconcile.{
  XenonNodeClaimReconciler, resolve_provider, reconcile_create, with_provider, reconcile_live,
  with_claim, ignored, reconcile_claim,
}
use xenonite.Claim.Quiet.{render_cloud_init-IsReading, resolve_provider-IsReading}
use xenonite.Claim.Guard.Backend.{attempt_ok}
use xenonite.Cluster.Ledger.{ledger, IsNeutral}
use xenonite.Cluster.Server.{
  IsFaithful, Once, InHand, IsPending, InHand-IsPending, InHand-stable, neutral-InHand,
}
use xenonite.Cluster.Readiness.{
  set_condition-IsPending, fail_with_status-Once, write_and_return, reconcile_readiness-Once,
}
use xenonite.Cluster.TearDown.{
  reading-IsNeutral, IsAccountableFactory, resolved-IsAccountable, reconcile_delete-Once,
}
use xenonite.Cluster.Backend.{Makes, Created, IsFresh, IsAccountable}
use xenonite.Cluster.Answers.{Returned, update-Returned, get-Returned}

module _ (ext : External) (faithful : IsFaithful ext) (w : String) where
  Makes-IsPending :
      (c : XenonNodeClaim) (id : String) (h : History)
      → c.status.provider_id ≡ ""
      → Makes w c.metadata.name id (ledger w h)
      → IsPending w (record_id id c) h
  unfolding record_id
  Makes-IsPending c id h new m = elim (Bool-cases (id == "")) [
    | inl t ↦
        rw t (record { own = λ e. rw new (rw t at (m.1 e)); other = λ ne. m.2 ne; calm = m.0 })
    | inr f ↦ rw (f, new) (record { own = λ e. m.1 e; other = λ ne. m.2 ne; calm = m.0 })
  ]

  after_create-Once :
      (c : XenonNodeClaim) (e : Option Error)
      → Triple (IsPending w c) (after_create ext c e) (λ _ h. Once w h)
  unfolding after_create
  after_create-Once c (some e) =
      Triple-before _ (fail_with_status-Once ext w _ e)
        (λ h p. set_condition-IsPending ext w c _ _ _ _ h p)
  after_create-Once c none =
      Triple-before _ (write_and_return ext w _ poll)
        (λ h p. set_condition-IsPending ext w c _ _ _ _ h p)

  create_request-IsFresh :
      (c : XenonNodeClaim) (user_data : String) (h : History)
      → c.status.provider_id ≡ ""
      → InHand w c h
      → IsFresh w (create_request c user_data).name (ledger w h)
  unfolding create_request
  create_request-IsFresh c user_data h new i = (i.once, λ e. sym (i.same e) ∙ new)

  with_user_data-Once :
      (c : XenonNodeClaim) (prov : Provider) (user_data : Result String)
      → IsAccountable ext prov
      → c.status.provider_id ≡ ""
      → Triple (InHand w c) (with_user_data ext c prov user_data) (λ _ h. Once w h)
  unfolding with_user_data create_request
  with_user_data-Once c prov (err e) acc new =
      Triple-before _ (fail_with_status-Once ext w _ e)
        (λ h i. set_condition-IsPending ext w c _ _ _ _ h (InHand-IsPending w c h i))
  with_user_data-Once c prov (ok user_data) acc new =
      Triple-bind _ _ (Created w c.metadata.name)
        (Triple-before _ (acc.creates w (create_request c user_data))
          (λ h i. create_request-IsFresh c user_data h new i))
        (λ (id, e).
          Triple-before _ (after_create-Once (record_id id c) e)
            (λ h m. Makes-IsPending c id h new m))
        (λ _ _ o. o)

  module _ (r : XenonNodeClaimReconciler) (accountable : IsAccountableFactory ext r) where
    reconcile_create-Once :
        (c : XenonNodeClaim) (prov : Provider) (spec : ProxmoxProviderSpec)
        → IsAccountable ext prov
        → c.status.provider_id ≡ ""
        → Triple (InHand w c) (reconcile_create ext r c prov spec) (λ _ h. Once w h)
    unfolding reconcile_create
    reconcile_create-Once c prov spec acc new =
        Triple-bind _ _ (λ _ h. InHand w c h)
          (neutral-InHand w c _ (
            Emits-attempt _
              (Emits-widen reading-IsNeutral _ (render_cloud_init-IsReading ext r c spec))))
          (λ user_data. with_user_data-Once c prov user_data acc new) (λ _ _ i. i.once)

    with_provider-Once :
        (c : XenonNodeClaim) (res : Result (Provider × ProxmoxProviderSpec)) (g : History)
        → (resolve_provider ext r c g).0 ≡ res
        → Triple (InHand w c) (with_provider ext r c res) (λ _ h. Once w h)
    unfolding with_provider
    with_provider-Once c (err e) g from =
        Triple-before _ (fail_with_status-Once ext w _ e)
          (λ h i. set_condition-IsPending ext w c _ _ _ _ h (InHand-IsPending w c h i))
    with_provider-Once c (ok (prov, spec)) g from = elim (Bool-cases (c.status.provider_id == "")) [
      | inl new ↦ rw new (
          reconcile_create-Once c prov spec
            (resolved-IsAccountable ext w r accountable c g prov spec from)
            ((eq_iff c.status.provider_id "").0 new))
      | inr old ↦ rw old (reconcile_readiness-Once ext w c)
    ]

    resolve_and_go :
        (c : XenonNodeClaim)
        → Triple
            (InHand w c)
            (attempt (resolve_provider ext r c) >>= with_provider ext r c)
            (λ _ h. Once w h)
    resolve_and_go c =
        Triple-bind _ _
          (λ res h.
            InHand w c h × ((g : History) × ((attempt (resolve_provider ext r c) g).0 ≡ res)))
          (Triple-keep IsNeutral _
            (Emits-attempt _ (Emits-widen reading-IsNeutral _ (resolve_provider-IsReading ext r c)))
            (InHand-stable w c))
          (λ res. record {
            at = λ h i. (with_provider-Once c res i.1.0 (attempt_ok _ _ _ i.1.1)).at h i.0;
          })
          (λ _ _ i. i.0.once)

    ensure_finalizer-Returned :
        (c : XenonNodeClaim) → Triple (InHand w c) (ensure_finalizer ext c) (Returned w)
    unfolding ensure_finalizer
    ensure_finalizer-Returned c =
        let added = ext.add_finalizer c.metadata.finalizers finalizer_node_claim in
        elim (Bool-cases added.1) [
          | inl changed ↦ rw changed (
              Triple-before _ (update-Returned ext faithful w (with_finalizers added.0 c))
                (λ h i. i.once))
          | inr kept ↦ rw kept (Triple-pure _ (λ h i. record { once = i.once; same = i.same }))
        ]

    reconcile_live-Once :
        (c : XenonNodeClaim) → Triple (InHand w c) (reconcile_live ext r c) (λ _ h. Once w h)
    unfolding reconcile_live
    reconcile_live-Once c =
        Triple-bind _ _ (Returned w) (ensure_finalizer-Returned c) (λ c'. resolve_and_go c')
          (λ _ _ o. o)

    ignored-Once : (o : Option Error) → Triple (λ h. Once w h) (ignored o) (λ _ h. Once w h)
    unfolding ignored
    ignored-Once none = Triple-pure _ (λ h o. o)
    ignored-Once (some e) = Triple-raise e (λ h o. o)

    with_claim-Once :
        (found : Result XenonNodeClaim)
        → Triple (Returned w found) (with_claim ext r found) (λ _ h. Once w h)
    unfolding with_claim
    with_claim-Once (err e) = ignored-Once (ext.ignore_not_found e)
    with_claim-Once (ok c) = elim (Bool-cases (is_zero c.metadata.deletion_timestamp)) [
      | inl live ↦ rw live (reconcile_live-Once c)
      | inr leaving ↦
          rw leaving (Triple-before _ (reconcile_delete-Once ext w r accountable c) (λ h i. i.once))
    ]

    pub reconcile_claim-Once :
        (name : String) → Triple (λ h. Once w h) (reconcile_claim ext r name) (λ _ h. Once w h)
    unfolding reconcile_claim
    reconcile_claim-Once name =
        Triple-bind _ _ (Attempted (Returned w))
          (Triple-attempt (Returned w) _ (get-Returned ext faithful w name))
          (λ found. with_claim-Once found) (λ _ _ no. absurd no)
