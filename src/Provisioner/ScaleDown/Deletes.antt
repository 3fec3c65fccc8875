-- ===== src/Provisioner/ScaleDown/Deletes.antt =====
-- When `scaleDown` deletes a claim.
use xenonite.Base.{
  String, List, [], ◌∷◌, ◌++◌, ◌≡◌, ◌≢◌, refl, ap, ◌∙◌, inl, inr, Bool, true, false, Option, none,
  some, Any, Bool-cases, arith, ◌==◌, eq_iff, if◌then◌else◌,
}
use xenonite.Base.Int.{ℤ, le_int}
use xenonite.Base.Dict.{entry}
use xenonite.Api.Core.{Pod, is_zero}
use xenonite.Api.NodeClaim.{XenonNodeClaim}
use xenonite.Api.NodePool.{XenonNodePool}
use xenonite.Exec.{
  Call, Event, called, read_clock, History, Result, ok, err, External, attempt, pure, request, now,
  ◌>>=◌,
}
use xenonite.Exec.Emits.{Allowed}
use xenonite.Exec.Inversion.{Any-bind, Any-bind_later, not-Any-Allowed}
use xenonite.Provisioner.ScaleDown.Calls.{
  IsMarking, mark_empty-IsMarking, clear_empty_since-IsMarking, deleted-IsMarking,
  is_claim_node_empty-IsMarking, scale_down-IsMarking,
}
use xenonite.Provisioner.ScaleDown.{
  annotation_empty_since, empty_grace_period, sub_time, is_claim_node_empty, check_grace,
  stamp_empty_since, mark_empty_and_check_grace, delete_if, deleted, delete_if_idle,
  scale_down_claim, each, scale_down,
}

abbrev pub DeletesIt : XenonNodeClaim → Event → Type 0
DeletesIt claim (called (Call.delete_claim c) _) = c ≡ claim
DeletesIt claim _ = ⊥

-- The claim is not being deleted, its node shows empty to `isClaimNodeEmpty` after `h`, and the
-- time that its annotation holds lies a grace period before the clock's at that point.
abbrev pub IsExpired : External → XenonNodeClaim → History → Type 0
IsExpired ext claim h =
    (claim.metadata.deletion_timestamp ≡ none)
    × ((is_claim_node_empty ext claim h).0 ≡ ok true)
    × (entry annotation_empty_since claim.metadata.annotations ≢ "")
    × (since : ℤ) × (ext.parse_rfc3339 (entry annotation_empty_since claim.metadata.annotations)
        ≡ ok since)
    × (le_int empty_grace_period
          (sub_time (ext.clock (h ++ (is_claim_node_empty ext claim h).1)) since)
        ≡ true)

module _ (ext : External) where
  marking_deletes_none :
      (claim : XenonNodeClaim) (e : Event) → Allowed IsMarking e → DeletesIt claim e → ⊥
  marking_deletes_none claim (called (Call.get_node _) r) a d = d
  marking_deletes_none claim (called (Call.list_pods_on _) r) a d = d
  marking_deletes_none claim (called (Call.patch_claim _ _) r) a d = d
  marking_deletes_none claim (called _ r) a d = absurd a
  marking_deletes_none claim (read_clock _) a d = d

  stamp_empty_since_never :
      (claim : XenonNodeClaim) (t : ℤ) (h : History) → (stamp_empty_since ext claim t h).0 ≢ ok true
  unfolding stamp_empty_since ◌>>=◌ pure request
  stamp_empty_since_never claim t h = ground arith

  check_grace-true :
      (claim : XenonNodeClaim) (t : ℤ) (r : Result ℤ) (h : History)
      → (check_grace ext claim t r h).0 ≡ ok true
      → (past : ℤ) × (r ≡ ok past) × (le_int empty_grace_period (sub_time t past) ≡ true)
  unfolding check_grace pure
  check_grace-true claim t (ok past) h e = (past, refl, cc)
  check_grace-true claim t (err _) h e = absurd (stamp_empty_since_never claim t h e)

  marked_true :
      (claim : XenonNodeClaim) (t : ℤ) (since : String) (h : History)
      → ((if since == ""
            then stamp_empty_since ext claim t
            else check_grace ext claim t (ext.parse_rfc3339 since))
          h).0
        ≡ ok true
      → (since ≢ "")
        × (past : ℤ) × (ext.parse_rfc3339 since ≡ ok past)
        × (le_int empty_grace_period (sub_time t past) ≡ true)
  marked_true claim t since h e = elim (Bool-cases (since == "")) [
    | inl b ↦ absurd (stamp_empty_since_never claim t h (rw b at e))
    | inr b ↦
        (let (past, parsed, late) =
            check_grace-true claim t (ext.parse_rfc3339 since) h (rw b at e) in
          (λ same. (let t = (eq_iff since "").1 same in cc), past, parsed, late))
  ]

  mark_empty_true :
      (claim : XenonNodeClaim) (h : History)
      → (mark_empty_and_check_grace ext claim h).0 ≡ ok true
      → (entry annotation_empty_since claim.metadata.annotations ≢ "")
        × (since : ℤ) × (ext.parse_rfc3339 (entry annotation_empty_since claim.metadata.annotations)
            ≡ ok since)
        × (le_int empty_grace_period (sub_time (ext.clock h) since) ≡ true)
  unfolding mark_empty_and_check_grace ◌>>=◌ now
  mark_empty_true claim h e =
      marked_true claim (ext.clock h) (entry annotation_empty_since claim.metadata.annotations)
        (h ++ (read_clock (ext.clock h) ∷ [])) e

  request_deletes :
      (claim other : XenonNodeClaim) (h : History)
      → Any (DeletesIt other) (attempt (request ext (Call.delete_claim claim)) h).1
      → claim ≡ other
  unfolding attempt request
  request_deletes claim other h (inl same) = same
  request_deletes claim other h (inr none_left) = absurd none_left

  delete_if_cases :
      (empty : Bool) (claim other : XenonNodeClaim) (h : History)
      → Any (DeletesIt other) (delete_if ext empty claim h).1
      → (empty ≡ true) × (claim ≡ other)
  unfolding delete_if pure
  delete_if_cases false claim other h d = absurd d
  delete_if_cases true claim other h d =
      elim (Any-bind (DeletesIt other) (attempt (request ext (Call.delete_claim claim)))
        (deleted ext) h d) [
          | inl early ↦ (refl, request_deletes claim other h early)
          | inr (r, _, late) ↦ absurd (
              not-Any-Allowed (DeletesIt other) (marking_deletes_none other) _
                ((deleted-IsMarking ext r).at _) late)
        ]

  delete_if_idle-Any :
      (empty : Bool) (claim other : XenonNodeClaim) (h : History)
      → Any (DeletesIt other) (delete_if_idle ext empty claim h).1
      → (empty ≡ true) × (claim ≡ other) × ((mark_empty_and_check_grace ext claim h).0 ≡ ok true)
  unfolding delete_if_idle
  delete_if_idle-Any false claim other h d = absurd (
      not-Any-Allowed (DeletesIt other) (marking_deletes_none other) _
        ((clear_empty_since-IsMarking ext claim).at h) d)
  delete_if_idle-Any true claim other h d =
      let (expired, e, late) =
        Any-bind_later (DeletesIt other) (marking_deletes_none other)
          (mark_empty_and_check_grace ext claim) (λ x. delete_if ext x claim) h
          (mark_empty-IsMarking ext claim) d in
      let (t, same) = delete_if_cases expired claim other _ late in (refl, same, e ∙ ap ok t)

  is_zero-none : (t : Option ℤ) → is_zero t ≡ true → t ≡ none
  is_zero-none none h = refl
  is_zero-none (some _) h = cc

  -- A round of the loop deletes at most its own claim, and only an expired one.
  scale_down_claim-IsExpired :
      (claim other : XenonNodeClaim) (h : History)
      → Any (DeletesIt other) (scale_down_claim ext claim h).1
      → (claim ≡ other) × IsExpired ext claim h
  unfolding scale_down_claim pure
  scale_down_claim-IsExpired claim other h d =
      elim (Bool-cases (is_zero claim.metadata.deletion_timestamp)) [
        | inl alive ↦
            (let (b, e, late) =
                Any-bind_later (DeletesIt other) (marking_deletes_none other)
                  (is_claim_node_empty ext claim) (λ x. delete_if_idle ext x claim) h
                  (is_claim_node_empty-IsMarking ext claim) (rw (alive, scale_down_claim) at d) in
              let (t, same, marked) = delete_if_idle-Any b claim other _ late in
              (let (known, past, parsed, elapsed) = mark_empty_true claim _ marked in
                (
                  same,
                  (
                    is_zero-none claim.metadata.deletion_timestamp alive,
                    e ∙ ap ok t,
                    known,
                    past,
                    parsed,
                    elapsed,
                  ),
                )))
        | inr gone ↦ absurd (rw (gone, scale_down_claim) at d)
      ]

  each-IsExpired :
      (claims : List XenonNodeClaim) (other : XenonNodeClaim) (h : History)
      → Any (DeletesIt other) (each ext (scale_down_claim ext) claims h).1
      → Any (λ claim. (claim ≡ other) × (g : History) × IsExpired ext claim g) claims
  unfolding each pure
  each-IsExpired [] other h d = absurd d
  each-IsExpired (claim ∷ claims) other h d =
      elim (Any-bind (DeletesIt other) (scale_down_claim ext claim)
        (λ _. each ext (scale_down_claim ext) claims) h d) [
          | inl early ↦
              (let (same, expired) = scale_down_claim-IsExpired claim other h early in
                inl (same, h, expired))
          | inr (_, _, late) ↦ inr (each-IsExpired claims other _ late)
        ]

-- `scaleDown` deletes a claim only when no pod waits, and only one of the pool's claims that is
-- not being deleted, whose node showed no pod to reschedule, and whose node was first seen empty
-- a grace period before.
pub scale_down-IsExpired :
    (ext : External) (pool : XenonNodePool) (pending : List Pod) (claims : List XenonNodeClaim)
    (other : XenonNodeClaim) (h : History)
    → Any (DeletesIt other) (scale_down ext pool pending claims h).1
    → (pending ≡ []) × Any (λ claim. (claim ≡ other) × (g : History) × IsExpired ext claim g) claims
unfolding scale_down
scale_down-IsExpired ext pool [] claims other h d = (refl, each-IsExpired ext claims other h d)
scale_down-IsExpired ext pool (p ∷ pending) claims other h d = absurd (
    not-Any-Allowed (DeletesIt other) (marking_deletes_none ext other) _
      ((scale_down-IsMarking ext pool p pending claims).at h) d)
