-- ===== src/Claim/Release.antt =====
-- What a teardown that succeeds has done.
use xenonite.Base.{
  ◌≡◌, subst, sym, true, false, ◌==◌, Option, none, some, inl, inr, Bool-cases, Any, Any-right,
  arith,
}
use xenonite.Api.Core.{CtrlResult}
use xenonite.Api.Labels.{finalizer_node_claim}
use xenonite.Api.NodeClaim.{XenonNodeClaim}
use xenonite.Provider.{Instance}
use xenonite.Exec.{Call, Event, called, History, ok, Exec, External, raise, request, ◌>>=◌}
use xenonite.Exec.Failures.{ok-bind}
use xenonite.Exec.Laws.{HasFinalizerLaws}
use xenonite.Claim.Methods.{remove_finalizer, release_if_gone}
use xenonite.Claim.Reconcile.{XenonNodeClaimReconciler, tear_down, reconcile_delete}
use xenonite.Claim.Guard.{holds}

-- The event writes the claim without the finalizer, with success.
abbrev pub Releases : External → Event → Type 0
Releases ext (called (Call.update_claim c) (ok _)) = holds ext c ≡ false
Releases ext _ = ⊥

module _ (ext : External) (laws : HasFinalizerLaws ext) (claim : XenonNodeClaim)
    (held : holds ext claim ≡ true) where
  remove_finalizer-Releases :
      (h : History) (b : CtrlResult)
      → (remove_finalizer ext claim h).0 ≡ ok b
      → Any (Releases ext) (remove_finalizer ext claim h).1
  unfolding remove_finalizer ◌>>=◌ request
  remove_finalizer-Releases h b e = ground (
    arith,
    laws.changed-remove claim.metadata.finalizers finalizer_node_claim,
    laws.contains-remove claim.metadata.finalizers finalizer_node_claim,
  )

  release_if_gone-Releases :
      (inst : Option Instance) (h : History) (b : CtrlResult)
      → (release_if_gone ext claim inst h).0 ≡ ok b
      → Any (Releases ext) (release_if_gone ext claim inst h).1
  unfolding release_if_gone raise
  release_if_gone-Releases none h b e = remove_finalizer-Releases h b e
  release_if_gone-Releases (some inst) h b e = cc

  -- What the second part of a sequence does, the sequence does.
  later {ℓ κ} :
      {A : Type ℓ} {B : Type κ} (m : Exec A) (f : A → Exec B) (h : History) (b : B)
      → ((a : A) (h : History) → (f a h).0 ≡ ok b → Any (Releases ext) (f a h).1)
      → ((m >>= f) h).0 ≡ ok b
      → Any (Releases ext) ((m >>= f) h).1
  later m f h b then_releases e =
      let (a, _, fine, all) = ok-bind m f h b e in
      subst (Any (Releases ext)) (sym all)
        (Any-right (Releases ext) (m h).1 _ (then_releases a _ fine))

  -- Where the reconciler of a claim that is being deleted and holds the finalizer returns no error,
  -- it has written the claim without the finalizer, with success. The library's functions on
  -- finalizers are as documented.
  pub reconcile_delete-Releases :
      (r : XenonNodeClaimReconciler) (h : History) (b : CtrlResult)
      → (reconcile_delete ext r claim h).0 ≡ ok b
      → Any (Releases ext) (reconcile_delete ext r claim h).1
  unfolding reconcile_delete tear_down
  reconcile_delete-Releases r h b e = elim (Bool-cases (claim.status.provider_id == "")) [
    | inl none_made ↦
        rw (held, none_made) (remove_finalizer-Releases h b (rw (held, none_made) at e))
    | inr made ↦
        rw (held, made)
          (later _ _ h b
            (λ (prov, spec) h.
              later _ _ h b (λ _ h. later _ _ h b (λ inst h. release_if_gone-Releases inst h b)))
            (rw (held, made) at e))
  ]
