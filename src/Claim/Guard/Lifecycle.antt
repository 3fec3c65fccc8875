-- ===== src/Claim/Guard/Lifecycle.antt =====
-- The reconciler of a claim clones only under guard, whatever the API server and Proxmox answer.
use xenonite.Base.{
  String, ◌≡◌, true, false, ◌==◌, Option, none, some, [], ◌∷◌, ◌++◌, refl, arith, Bool-cases, inl,
  inr, ◌∙◌,
}
use xenonite.Api.Core.{Error, is_zero}
use xenonite.Api.Labels.{finalizer_node_claim}
use xenonite.Api.NodeClaim.{XenonNodeClaim}
use xenonite.Api.ProxmoxProvider.{ProxmoxProviderSpec}
use xenonite.Exec.{
  Call, History, Result, ok, err, called, continue, Exec, External, ◌>>=◌, request, attempt,
}
use xenonite.Exec.Emits.{Emits, Emits-attempt, Emits-wrap, Emits-bind, Emits-widen, emits_rules}
use xenonite.Exec.Laws.{HasFinalizerLaws}
use xenonite.Provider.{Provider}
use xenonite.Claim.Objects.{with_finalizers}
use xenonite.Claim.Methods.{reconcile_readiness, ensure_finalizer, release_if_gone}
use xenonite.Claim.Reconcile.{
  XenonNodeClaimReconciler, resolve_provider, reconcile_create, tear_down, reconcile_delete,
  with_provider, reconcile_live, reconcile_claim, with_claim, ignored,
}
use xenonite.Claim.Quiet.{
  fail_with_status-IsReporting, reconcile_readiness-IsReporting, render_cloud_init-IsReading,
  resolve_provider-IsReading,
}
use xenonite.Claim.Guard.{Seen, Guarded, holds, is_fresh, seen_after}
use xenonite.Claim.Guard.Rules.{
  IsSafe, IsSafe-quiet, IsSafe-bind_quiet, IsCloneless, IsSafe-cloneless,
}
use xenonite.Claim.Guard.Backend.{
  armed, reading-IsQuiet, reporting-IsQuiet, quiet-IsCloneless, wrap_ok, attempt_ok, IsCareful,
  ready, with_user_data-IsSafe, remove_finalizer-IsCloneless, release_if_gone-IsCloneless,
  resolved-IsCareful, IsCarefulFactory,
}

-- Before anything is read of the claim.
abbrev pub unseen : Seen
unseen = record { alive = false; held = false; fresh = false }

module _ (ext : External) where
  module _ {A : Type 0} (f : XenonNodeClaim → Exec A)
      (safe : (c : XenonNodeClaim) → IsSafe ext (ready ext c) (f c)) where
    after_update :
        (s : Seen) (sent : XenonNodeClaim) (res : Result XenonNodeClaim) (h : History)
        → s.alive ≡ true
        → holds ext sent ≡ true
        → Guarded ext s (continue res f h (called (Call.update_claim sent) res ∷ [])).1
    after_update s sent (ok c) h live held = (tt, rw (live, held) ((safe c).at _))
    after_update s sent (err e) h live held = (tt, tt)

    ensured :
        (laws : HasFinalizerLaws ext) (claim : XenonNodeClaim)
        → IsSafe ext
            (record { alive = true; held = holds ext claim; fresh = is_fresh ext claim })
            (ensure_finalizer ext claim >>= f)
    unfolding ensure_finalizer ◌>>=◌ request
    ensured laws claim = record {
      at = λ h.
          let added = ext.add_finalizer claim.metadata.finalizers finalizer_node_claim in
          elim (Bool-cases added.1) [
            | inl changed ↦ rw changed (
                after_update _ (with_finalizers added.0 claim) _ h refl
                  (laws.contains-add claim.metadata.finalizers finalizer_node_claim))
            | inr same ↦
                let held : holds ext claim ≡ true =
                  ground (arith, laws.changed-add claim.metadata.finalizers finalizer_node_claim) in
                rw same (rw held ((safe (with_finalizers added.0 claim)).at _))
          ];
    }

  module _ (r : XenonNodeClaimReconciler) where
    module _ (careful : IsCarefulFactory ext r) where
      reconcile_create-IsSafe :
          (claim : XenonNodeClaim) (prov : Provider) (spec : ProxmoxProviderSpec)
          → IsCareful ext prov
          → IsSafe ext armed (reconcile_create ext r claim prov spec)
      unfolding reconcile_create
      reconcile_create-IsSafe claim prov spec c =
          IsSafe-bind_quiet ext _ _
            (Emits-attempt _
              (Emits-widen reading-IsQuiet _ (render_cloud_init-IsReading ext r claim spec)))
            (λ h u e. with_user_data-IsSafe ext claim prov u c)

      readiness-IsSafe :
          (s : Seen) (claim : XenonNodeClaim) → IsSafe ext s (reconcile_readiness ext claim)
      readiness-IsSafe s claim =
          IsSafe-quiet ext _
            (Emits-widen reporting-IsQuiet _ (reconcile_readiness-IsReporting ext claim))

      with_provider-IsSafe :
          (claim : XenonNodeClaim) (res : Result (Provider × ProxmoxProviderSpec))
          → ((prov : Provider) (spec : ProxmoxProviderSpec)
              → res ≡ ok (prov, spec)
              → IsCareful ext prov)
          → IsSafe ext (ready ext claim) (with_provider ext r claim res)
      unfolding with_provider
      with_provider-IsSafe claim (err e) c =
          IsSafe-quiet ext _
            (Emits-widen reporting-IsQuiet _ (fail_with_status-IsReporting ext _ e))
      with_provider-IsSafe claim (ok (prov, spec)) c =
          elim (Bool-cases (claim.status.provider_id == "")) [
            | inl new ↦ rw new (reconcile_create-IsSafe claim prov spec (c prov spec refl))
            | inr old ↦ rw old (readiness-IsSafe _ claim)
          ]

      live_from :
          (claim : XenonNodeClaim)
          → IsSafe ext
              (ready ext claim)
              (attempt (resolve_provider ext r claim) >>= with_provider ext r claim)
      live_from claim =
          IsSafe-bind_quiet ext _ _
            (Emits-attempt _
              (Emits-widen reading-IsQuiet _ (resolve_provider-IsReading ext r claim)))
            (λ h res e. with_provider-IsSafe claim res (λ prov spec p.
              resolved-IsCareful ext r claim h prov spec careful
                (attempt_ok (resolve_provider ext r claim) h res e ∙ p)))

      released-IsCloneless :
          (claim : XenonNodeClaim) (prov : Provider)
          → IsCareful ext prov
          → Emits IsCloneless (
              prov.delete claim.status.provider_id >>= λ _.
              prov.get claim.status.provider_id >>= release_if_gone ext claim)
      released-IsCloneless claim prov c =
          Emits-bind _ _ (Emits-widen quiet-IsCloneless _ (c.deletes claim.status.provider_id)) λ _.
            Emits-bind _ _ (Emits-widen quiet-IsCloneless _ (c.gets claim.status.provider_id))
              (release_if_gone-IsCloneless ext claim)

      tear_down-IsSafe : (s : Seen) (claim : XenonNodeClaim) → IsSafe ext s (tear_down ext r claim)
      unfolding tear_down
      tear_down-IsSafe s claim =
          IsSafe-bind_quiet ext _ _
            (Emits-wrap _ _ _
              (Emits-widen reading-IsQuiet _ (resolve_provider-IsReading ext r claim)))
            (λ h (prov, spec) e. IsSafe-cloneless ext _ (
              released-IsCloneless claim prov (
                resolved-IsCareful ext r claim h prov spec careful
                  (wrap_ok _ _ _ h (prov, spec) e))))

      with_delete-IsSafe :
          (s : Seen) (claim : XenonNodeClaim) → IsSafe ext s (reconcile_delete ext r claim)
      unfolding reconcile_delete
      with_delete-IsSafe s claim = elim (Bool-cases (holds ext claim)) [
        | inr gone ↦ rw gone (IsSafe-cloneless ext _ (search emits_rules))
        | inl held ↦ rw held (elim (Bool-cases (claim.status.provider_id == "")) [
          | inl none_made ↦
              rw none_made (IsSafe-cloneless ext _ (remove_finalizer-IsCloneless ext claim))
          | inr made ↦ rw made (tear_down-IsSafe s claim)
        ])
      ]

      missing-IsCloneless : (o : Option Error) → Emits IsCloneless (ignored o)
      unfolding ignored
      missing-IsCloneless none = search emits_rules
      missing-IsCloneless (some e) = search emits_rules

      with_claim-IsSafe :
          (laws : HasFinalizerLaws ext) (claim : XenonNodeClaim)
          → IsSafe ext
              (record {
                alive = is_zero claim.metadata.deletion_timestamp;
                held = holds ext claim;
                fresh = is_fresh ext claim;
              })
              (with_claim ext r (ok claim))
      unfolding with_claim reconcile_live
      with_claim-IsSafe laws claim = elim (Bool-cases (is_zero claim.metadata.deletion_timestamp)) [
        | inl live ↦ rw live (ensured _ live_from laws claim)
        | inr deleting ↦ rw deleting (with_delete-IsSafe _ claim)
      ]

      -- On every run of `Reconcile`, whatever the API server and Proxmox answer, a VM is cloned
      -- only while the claim that was read is not being deleted, is known to be stored with the
      -- finalizer and has no providerID, and at most once. The backends that the factory builds
      -- are careful, and the library's functions on finalizers are as documented.
      pub reconcile_claim-Guarded :
          (laws : HasFinalizerLaws ext) (name : String) (h : History)
          → Guarded ext unseen (reconcile_claim ext r name h).1
      unfolding reconcile_claim ◌>>=◌ request
      reconcile_claim-Guarded laws name h = (tt, go (ext.answer h (Call.get_claim name)))
        where
          go :
              (res : Result XenonNodeClaim)
              → Guarded ext
                  (seen_after ext unseen (called (Call.get_claim name) res))
                  (with_claim ext r res (h ++ called (Call.get_claim name) res ∷ [])).1
          go (ok claim) = (with_claim-IsSafe laws claim).at _
          go (err e) = (IsSafe-cloneless ext _ (missing-IsCloneless (ext.ignore_not_found e))).at _
