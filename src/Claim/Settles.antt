-- ===== src/Claim/Settles.antt =====
-- A claim that is alive is either looked at again or ready.
use xenonite.Base.{
  String, ◌≡◌, refl, subst, sym, true, ◌==◌, ◌∙◌, Option, none, some, ◌++◌, ◌⊎◌, inl, inr,
  Bool-cases, Any, Any-right, arith,
}
use xenonite.Api.Core.{Error, CtrlResult, is_zero}
use xenonite.Api.NodeClaim.{XenonNodeClaim}
use xenonite.Api.ProxmoxProvider.{ProxmoxProviderSpec}
use xenonite.Provider.{Provider}
use xenonite.Exec.{Call, History, Result, ok, err, External, request, attempt, ◌>>=◌}
use xenonite.Exec.Failures.{ok-bind}
use xenonite.Claim.Objects.{done, poll}
use xenonite.Claim.Methods.{
  ensure_finalizer, fail_with_status, after_create, with_user_data, label_node, reconcile_readiness,
}
use xenonite.Claim.Reconcile.{
  XenonNodeClaimReconciler, reconcile_create, with_provider, reconcile_live, with_claim,
  reconcile_claim,
}
use xenonite.Claim.Guard.Backend.{attempt_ok}
use xenonite.Claim.Readiness.{ReadsNode, ReportsReady, reconcile_readiness-done}

-- The result asks to come back in a while, or the claim's node was read and the claim, as it is
-- stored with its finalizer, was reported ready.
abbrev pub Settles : External → XenonNodeClaim → CtrlResult → History → Type 0
Settles ext claim b es =
    (b ≡ poll)
    ⊎ ((claim' : XenonNodeClaim) × ((g : History) × ((ensure_finalizer ext claim g).0 ≡ ok claim'))
        × Any (ReadsNode claim') es
        × Any (ReportsReady ext claim') es)

module _ (ext : External) where
  readiness_cases :
      (claim : XenonNodeClaim) (h : History) (b : CtrlResult)
      → (reconcile_readiness ext claim h).0 ≡ ok b
      → (b ≡ poll) ⊎ (b ≡ done)
  unfolding reconcile_readiness label_node ◌>>=◌ request
  readiness_cases claim h b e = ground arith

  after_create-poll :
      (claim : XenonNodeClaim) (e : Option Error) (h : History) (b : CtrlResult)
      → (after_create ext claim e h).0 ≡ ok b
      → b ≡ poll
  unfolding after_create fail_with_status ◌>>=◌ request
  after_create-poll claim none h b q = ground arith
  after_create-poll claim (some e) h b q = ground arith

  pub fail_with_status-ok :
      (claim : XenonNodeClaim) (e : Error) (h : History) (b : CtrlResult)
      → (fail_with_status ext claim e h).0 ≡ ok b
      → ⊥
  unfolding fail_with_status ◌>>=◌ request
  fail_with_status-ok claim e h b q = ground arith

  with_user_data-poll :
      (claim : XenonNodeClaim) (prov : Provider) (r : Result String) (h : History) (b : CtrlResult)
      → (with_user_data ext claim prov r h).0 ≡ ok b
      → b ≡ poll
  unfolding with_user_data
  with_user_data-poll claim prov (err e) h b q = absurd (fail_with_status-ok _ e h b q)
  with_user_data-poll claim prov (ok user_data) h b q =
      let ((id, e), _, q', _) = ok-bind (prov.create _) _ h b q in after_create-poll _ e _ b q'

module _ (ext : External) (claim : XenonNodeClaim) (b : CtrlResult) (es fs : History) where
  Settles-right : Settles ext claim b fs → Settles ext claim b (es ++ fs)
  Settles-right (inl again) = inl again
  Settles-right (inr (claim', kept, read, ready)) = inr (
    claim',
    kept,
    Any-right (ReadsNode claim') es fs read,
    Any-right (ReportsReady ext claim') es fs ready,
  )

  later : (all : History) → all ≡ es ++ fs → Settles ext claim b fs → Settles ext claim b all
  later all e s = subst (Settles ext claim b) (sym e) (Settles-right s)

module _ (ext : External) (r : XenonNodeClaimReconciler) where
  with_provider-Settles :
      (claim claim' : XenonNodeClaim) (g : History) (res : Result (Provider × ProxmoxProviderSpec))
      (h : History) (b : CtrlResult)
      → (ensure_finalizer ext claim g).0 ≡ ok claim'
      → (with_provider ext r claim' res h).0 ≡ ok b
      → Settles ext claim b (with_provider ext r claim' res h).1
  unfolding with_provider reconcile_create
  with_provider-Settles claim claim' g (err e) h b kept q =
      absurd (fail_with_status-ok ext _ e h b q)
  with_provider-Settles claim claim' g (ok (prov, spec)) h b kept q =
      elim (Bool-cases (claim'.status.provider_id == "")) [
        | inl none_made ↦
            let q' = rw none_made at q in
            let (user_data, _, q'', _) = ok-bind _ _ h b q' in
            inl (with_user_data-poll ext claim' prov user_data _ b q'')
        | inr made ↦
            let q' = rw made at q in
            elim (readiness_cases ext claim' h b q') [
              | inl again ↦ inl again
              | inr finished ↦ rw made (
                  let (read, ready) = reconcile_readiness-done ext claim' h (rw finished at q') in
                  inr (claim', (g, kept), read, ready))
            ]
      ]

  reconcile_live-Settles :
      (claim : XenonNodeClaim) (h : History) (b : CtrlResult)
      → (reconcile_live ext r claim h).0 ≡ ok b
      → Settles ext claim b (reconcile_live ext r claim h).1
  unfolding reconcile_live
  reconcile_live-Settles claim h b q =
      let (claim', kept, q', all) = ok-bind (ensure_finalizer ext claim) _ h b q in
      let (res, _, q'', all') = ok-bind (attempt _) (with_provider ext r claim') _ b q' in
      later ext claim b _ _ _ all
        (later ext claim b _ _ _ all' (with_provider-Settles claim claim' h res _ b kept q''))

  with_claim-Settles :
      (res : Result XenonNodeClaim) (claim : XenonNodeClaim) (h : History) (b : CtrlResult)
      → res ≡ ok claim
      → is_zero claim.metadata.deletion_timestamp ≡ true
      → (with_claim ext r res h).0 ≡ ok b
      → Settles ext claim b (with_claim ext r res h).1
  unfolding with_claim
  with_claim-Settles res claim h b same alive q =
      rw (same, alive) (reconcile_live-Settles claim h b (rw (same, alive) at q))

  answered :
      (name : String) (h : History)
      → (request ext (Call.get_claim name) h).0 ≡ ext.answer h (Call.get_claim name)
  unfolding request
  answered name h = refl

  -- A live claim that is found settles: where its Reconcile returns no error, it asks to come back
  -- after the poll interval, or it has read the claim's node and has written, with success, that
  -- the claim is ready.
  pub reconcile_claim-Settles :
      (name : String) (claim : XenonNodeClaim) (h : History) (b : CtrlResult)
      → ext.answer h (Call.get_claim name) ≡ ok claim
      → is_zero claim.metadata.deletion_timestamp ≡ true
      → (reconcile_claim ext r name h).0 ≡ ok b
      → Settles ext claim b (reconcile_claim ext r name h).1
  unfolding reconcile_claim
  reconcile_claim-Settles name claim h b found alive q =
      let (res, e, q', all) =
        ok-bind (attempt (request ext (Call.get_claim name))) (with_claim ext r) h b q in
      let same = attempt_ok (request ext (Call.get_claim name)) h res e in
      later ext claim b _ _ _ all
        (with_claim-Settles res claim _ b (sym same ∙ answered name h ∙ found) alive q')
