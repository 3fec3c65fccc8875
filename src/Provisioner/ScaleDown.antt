-- ===== src/Provisioner/ScaleDown.antt =====
-- internal/controller/provisioner_controller.go: claims whose nodes stay empty.
pub mod Calls
pub mod Deletes
pub mod Clears
pub mod Bounded
use xenonite.Base.{
  ◌^◌, ◌-◌, String, Bool, true, false, not, ◌==◌, List, [], ◌∷◌, any, if◌then◌else◌,
}
use xenonite.Base.Int.{ℤ, pos, negsuc, ◌-ℤ◌, lt_int, le_int}
use xenonite.Base.Dict.{Dict, insert, erase, entry}
use xenonite.Api.Core.{Pod, Node, is_zero}
use xenonite.Api.NodeClaim.{XenonNodeClaim}
use xenonite.Api.NodePool.{XenonNodePool}
use xenonite.Exec.{
  Result, ok, err, Exec, External, get_node, list_pods_on, patch_claim, delete_claim, pure, raise,
  attempt, request, now, ◌>>=◌, ◌>>◌,
}
use xenonite.Provisioner.Pods.{is_reschedulable_pod}

-- 5 * time.Minute
abbrev pub empty_grace_period : ℤ
empty_grace_period = pos 300_000_000_000

abbrev pub annotation_empty_since : String
annotation_empty_since = "xenonite.io/empty-since"

-- now.Sub(since): a Duration is an int64 that stops at its ends.
unfoldable pub sub_time : ℤ → ℤ → ℤ
sub_time t since =
    let d = t -ℤ since in
    if lt_int (pos (2 ^ 63 - 1)) d
    then pos (2 ^ 63 - 1)
    else if lt_int d (negsuc (2 ^ 63 - 1))
    then negsuc (2 ^ 63 - 1)
    else d

abbrev pub with_annotations : Dict String → XenonNodeClaim → XenonNodeClaim
with_annotations annotations claim = record claim {
  metadata = record claim.metadata { annotations = annotations };
}

module _ (ext : External) where
  pub found_empty : Result Node → Exec Bool
  found_empty (err e) = if ext.is_not_found e then pure false else raise e
  found_empty (ok node) = do
    pods ← request ext (list_pods_on node.metadata.name)
    pure (not (any is_reschedulable_pod pods))

  unfoldable pub is_claim_node_empty : XenonNodeClaim → Exec Bool
  unfolding found_empty
  is_claim_node_empty claim = do
    found ← attempt (request ext (get_node claim.metadata.name))
    found_empty found

  -- Writes the time on the claim: `return false, r.Patch(ctx, claim, patch)`.
  pub stamp_empty_since : XenonNodeClaim → ℤ → Exec Bool
  stamp_empty_since claim t = do
    request ext (
        patch_claim claim (
          with_annotations
            (insert annotation_empty_since (ext.format_rfc3339 t) claim.metadata.annotations)
            claim))
    pure false

  pub check_grace : XenonNodeClaim → ℤ → Result ℤ → Exec Bool
  unfolding stamp_empty_since
  check_grace claim t (err e) = stamp_empty_since claim t
  check_grace claim t (ok since) = pure (le_int empty_grace_period (sub_time t since))

  unfoldable pub mark_empty_and_check_grace : XenonNodeClaim → Exec Bool
  unfolding check_grace
  mark_empty_and_check_grace claim = do
    t ← now ext
    let since = entry annotation_empty_since claim.metadata.annotations
    if since == "" then stamp_empty_since claim t else check_grace claim t (ext.parse_rfc3339 since)

  unfoldable pub clear_empty_since : XenonNodeClaim → Exec (Unit {0})
  clear_empty_since claim =
      if entry annotation_empty_since claim.metadata.annotations == "" then pure tt else (do
        attempt (
            request ext (
              patch_claim claim
                (with_annotations (erase annotation_empty_since claim.metadata.annotations) claim)))
        pure tt)

  pub deleted : Result (Unit {0}) → Exec (Unit {0})
  deleted (ok _) = pure tt
  deleted (err e) = if ext.is_not_found e then pure tt else raise e

  pub delete_if : Bool → XenonNodeClaim → Exec (Unit {0})
  unfolding deleted
  delete_if false claim = pure tt
  delete_if true claim = do r ← attempt (request ext (delete_claim claim)); deleted r

  pub delete_if_idle : Bool → XenonNodeClaim → Exec (Unit {0})
  unfolding delete_if
  delete_if_idle false claim = clear_empty_since claim
  delete_if_idle true claim = do expired ← mark_empty_and_check_grace claim; delete_if expired claim

  -- One round of the loop of `scaleDown`.
  unfoldable pub scale_down_claim : XenonNodeClaim → Exec (Unit {0})
  unfolding delete_if_idle
  scale_down_claim claim =
      if not (is_zero claim.metadata.deletion_timestamp)
      then pure tt
      else (do empty ← is_claim_node_empty claim; delete_if_idle empty claim)

  pub each : (XenonNodeClaim → Exec (Unit {0})) → List XenonNodeClaim → Exec (Unit {0})
  each f [] = pure tt
  each f (c ∷ claims) = do f c; each f claims

  scale_down_for : List Pod → List XenonNodeClaim → Exec (Unit {0})
  unfolding each
  scale_down_for [] claims = each scale_down_claim claims
  scale_down_for (_ ∷ _) claims = each clear_empty_since claims

  unfoldable pub scale_down : XenonNodePool → List Pod → List XenonNodeClaim → Exec (Unit {0})
  unfolding scale_down_for
  scale_down pool = scale_down_for
