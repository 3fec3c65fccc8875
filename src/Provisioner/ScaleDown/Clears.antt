-- ===== src/Provisioner/ScaleDown/Clears.antt =====
-- What `scaleDown` is sure to delete.
use xenonite.Base.{
  ◌∙◌, append_assoc, append-nil, ap, ◌≡◌, ◌≢◌, refl, sym, subst, ◌==◌, eq_iff, Bool-cases, true,
  inl, inr, none, List, [], ◌∷◌, ◌++◌, Any, Any-right, arith,
}
use xenonite.Base.Int.{ℤ, pos, negsuc, le_int, ◌+ℤ◌, ◌-ℤ◌}
use xenonite.Base.Dict.{entry, insert, lookup-insert}
use xenonite.Api.Core.{is_zero}
use xenonite.Api.NodeClaim.{XenonNodeClaim}
use xenonite.Api.NodePool.{XenonNodePool}
use xenonite.Exec.{Call, Event, called, History, ok, External, attempt, pure, request, now, ◌>>=◌}
use xenonite.Exec.Failures.{ok-bind}
use xenonite.Exec.Inversion.{bind-Any, bind-Any_first}
use xenonite.Provisioner.ScaleDown.{
  annotation_empty_since, empty_grace_period, sub_time, is_claim_node_empty, check_grace,
  stamp_empty_since, with_annotations, mark_empty_and_check_grace, delete_if, delete_if_idle,
  scale_down_claim, each, scale_down,
}
use xenonite.Provisioner.ScaleDown.Deletes.{DeletesIt, IsExpired}

module _ (ext : External) (claim : XenonNodeClaim) where
  delete_if-Any : (h : History) → Any (DeletesIt claim) (delete_if ext true claim h).1
  unfolding delete_if attempt request
  delete_if-Any h =
      bind-Any_first (DeletesIt claim) (attempt (request ext (Call.delete_claim claim))) _ h
        (inl refl)

  mark_empty-true :
      (h : History) (since : ℤ)
      → entry annotation_empty_since claim.metadata.annotations ≢ ""
      → ext.parse_rfc3339 (entry annotation_empty_since claim.metadata.annotations) ≡ ok since
      → le_int empty_grace_period (sub_time (ext.clock h) since) ≡ true
      → (mark_empty_and_check_grace ext claim h).0 ≡ ok true
  unfolding mark_empty_and_check_grace ◌>>=◌ now check_grace pure
  mark_empty-true h since known parsed elapsed =
      elim (Bool-cases (entry annotation_empty_since claim.metadata.annotations == "")) [
        | inl t ↦
            absurd
              (known ((eq_iff (entry annotation_empty_since claim.metadata.annotations) "").0 t))
        | inr f ↦ rw (f, parsed, elapsed) refl
      ]

  expired-Deletes :
      (h : History) → IsExpired ext claim h → Any (DeletesIt claim) (scale_down_claim ext claim h).1
  unfolding scale_down_claim delete_if_idle
  expired-Deletes h (alive, empty, known, since, parsed, elapsed) =
      let zero : is_zero claim.metadata.deletion_timestamp ≡ true = ap is_zero alive in
      rw (zero, scale_down_claim)
        (bind-Any (DeletesIt claim) (is_claim_node_empty ext claim)
          (λ x. delete_if_idle ext x claim) h true empty
          (bind-Any (DeletesIt claim) (mark_empty_and_check_grace ext claim)
            (λ x. delete_if ext x claim) _ true (mark_empty-true _ since known parsed elapsed)
            (delete_if-Any _)))

  each-Deletes :
      (claims : List XenonNodeClaim) (h : History)
      → ((es : List Event) → IsExpired ext claim (h ++ es))
      → (each ext (scale_down_claim ext) claims h).0 ≡ ok tt
      → Any (λ c. c ≡ claim) claims
      → Any (DeletesIt claim) (each ext (scale_down_claim ext) claims h).1
  unfolding each
  each-Deletes [] h expired e listed = absurd listed
  each-Deletes (c ∷ claims) h expired e listed =
      let (_, _, rest, events) =
        ok-bind (scale_down_claim ext c) (λ _. each ext (scale_down_claim ext) claims) h tt e in
      elim listed [
        | inl same ↦ bind-Any_first (DeletesIt claim) (scale_down_claim ext c) _ h (
            subst (λ c. Any (DeletesIt claim) (scale_down_claim ext c h).1) (sym same)
              (expired-Deletes h (subst (IsExpired ext claim) (append-nil h) (expired []))))
        | inr later ↦
            (let after = (scale_down_claim ext c h).1 in
              subst (λ es. Any (DeletesIt claim) es) (sym events)
                (Any-right (DeletesIt claim) after _ (
                  each-Deletes claims (h ++ after)
                    (λ es.
                      subst (IsExpired ext claim) (sym (append_assoc h after es))
                        (expired (after ++ es)))
                    rest later)))
      ]

-- What package time does to a time that is written and read: it comes back in whole seconds, cut
-- off towards the past, and its text is not empty.
pub record KeepsTime (ext : External) (t : ℤ) : Type 0 where
  pub written : ext.format_rfc3339 t ≢ ""
  pub since : ℤ
  pub read_back : ext.parse_rfc3339 (ext.format_rfc3339 t) ≡ ok since
  pub early : le_int since t ≡ true

-- The claim with the empty-since annotation at the time.
abbrev pub stamped : External → ℤ → XenonNodeClaim → XenonNodeClaim
stamped ext t claim =
    with_annotations
      (insert annotation_empty_since (ext.format_rfc3339 t) claim.metadata.annotations) claim

-- The event sends the claim, changed to the other.
abbrev pub Sends : XenonNodeClaim → XenonNodeClaim → Event → Type 0
Sends claim new (called (Call.patch_claim old c) _) = (old ≡ claim) × (c ≡ new)
Sends claim new _ = ⊥

-- What `markEmptyAndCheckGrace` sends is stamped with the time.
pub mark_empty-stamped :
    (ext : External) (claim new : XenonNodeClaim) (g : History)
    → Any (Sends claim new) (mark_empty_and_check_grace ext claim g).1
    → new ≡ stamped ext (ext.clock g) claim
unfolding mark_empty_and_check_grace check_grace stamp_empty_since ◌>>=◌ now request
mark_empty-stamped ext claim new g sent = ground arith

sub_time-late :
    (t s n : ℤ)
    → le_int s t ≡ true
    → le_int (t +ℤ empty_grace_period) n ≡ true
    → le_int empty_grace_period (sub_time n s) ≡ true
unfolding sub_time ◌+ℤ◌ ◌-ℤ◌
sub_time-late (pos t) (pos s) (pos n) early late = ground (arith, early, late)
sub_time-late (pos t) (negsuc s) (pos n) early late = ground (arith, early, late)
sub_time-late (negsuc t) (negsuc s) (pos n) early late = ground (arith, early, late)
sub_time-late (negsuc t) (negsuc s) (negsuc n) early late = ground (arith, early, late)
sub_time-late (negsuc t) (pos s) n early late = ground (arith, early)
sub_time-late (pos t) s (negsuc n) early late = ground (arith, late)

module _ (ext : External) (claim : XenonNodeClaim) (t : ℤ) (kept : KeepsTime ext t) where
  entry-stamped :
      entry annotation_empty_since (stamped ext t claim).metadata.annotations ≡ ext.format_rfc3339 t
  entry-stamped =
      rw
        (lookup-insert annotation_empty_since annotation_empty_since (ext.format_rfc3339 t)
          claim.metadata.annotations)
        refl

  stamped-IsExpired :
      (g : History)
      → claim.metadata.deletion_timestamp ≡ none
      → (is_claim_node_empty ext claim g).0 ≡ ok true
      → le_int (t +ℤ empty_grace_period) (ext.clock (g ++ (is_claim_node_empty ext claim g).1))
        ≡ true
      → IsExpired ext (stamped ext t claim) g
  unfolding is_claim_node_empty
  stamped-IsExpired g alive empty late = (
    alive,
    empty,
    (λ e. kept.written (sym entry-stamped ∙ e)),
    kept.since,
    (ap ext.parse_rfc3339 entry-stamped ∙ kept.read_back),
    sub_time-late t kept.since _ kept.early late,
  )

-- A claim as `scaleDown` stamps it at the time `t` is deleted, a grace period later, by every
-- `scaleDown` with no waiting pods that lists it and returns no error, if it is not being deleted
-- and its node shows empty from then on. A time that is written and read is cut to whole seconds.
pub scale_down-Clears :
    (ext : External) (pool : XenonNodePool) (claims : List XenonNodeClaim) (claim : XenonNodeClaim)
    (t : ℤ) (h : History)
    → KeepsTime ext t
    → claim.metadata.deletion_timestamp ≡ none
    → ((es : List Event) → (is_claim_node_empty ext claim (h ++ es)).0 ≡ ok true)
    → ((es : List Event) → le_int (t +ℤ empty_grace_period) (ext.clock (h ++ es)) ≡ true)
    → Any (λ c. c ≡ stamped ext t claim) claims
    → (scale_down ext pool [] claims h).0 ≡ ok tt
    → Any (DeletesIt (stamped ext t claim)) (scale_down ext pool [] claims h).1
unfolding scale_down
scale_down-Clears ext pool claims claim t h kept alive empty late listed done =
    each-Deletes ext (stamped ext t claim) claims h
      (λ es. stamped-IsExpired ext claim t kept (h ++ es) alive (empty es) (
        subst (λ g. le_int (t +ℤ empty_grace_period) (ext.clock g) ≡ true)
          (sym (append_assoc h es (is_claim_node_empty ext claim (h ++ es)).1))
          (late (es ++ (is_claim_node_empty ext claim (h ++ es)).1))))
      done listed
