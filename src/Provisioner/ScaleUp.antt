-- ===== src/Provisioner/ScaleUp.antt =====
-- internal/controller/provisioner_controller.go: claims for the pods that wait.
pub mod Counts
pub mod Claims
use Prim.Native.String.{◌++◌ as ◌<>◌}
use xenonite.Base.{
  ℕ, zero, suc, String, Bool, ◌&&◌, not, Option, none, some, List, [], ◌∷◌, length, if◌then◌else◌,
}
use xenonite.Base.Int.{ℤ, pos, pos_part, sub_ℕ, ◌+ℤ◌, ◌-ℤ◌, lt_int}
use xenonite.Base.Dict.{lookup}
use xenonite.Api.Core.{Pod, empty_meta}
use xenonite.Api.Labels.{label_node_pool}
use xenonite.Api.NodeClaim.{XenonNodeClaim, empty_status}
use xenonite.Api.NodePool.{XenonNodePool}
use xenonite.Exec.{Call, Exec, External, pure, lift, request, ◌>>=◌, ◌>>◌}

abbrev limit_value : Option ℤ → ℤ
limit_value none = pos 0
limit_value (some q) = q

unfoldable pub pool_node_limit : XenonNodePool → ℤ
pool_node_limit pool = limit_value (lookup "nodes" pool.spec.limits)

-- The claim that `createClaim` sends, but for its owner.
unfoldable pub new_claim : XenonNodePool → XenonNodeClaim
new_claim pool = record {
  metadata = record empty_meta {
    generate_name = pool.metadata.name <> "-";
    labels = (label_node_pool, pool.metadata.name) ∷ [];
  };
  spec = record {
    node_pool_ref = pool.metadata.name;
    requirements = pool.spec.template.spec.requirements;
    resources = pool.spec.template.spec.resources;
  };
  status = empty_status;
}

module _ (ext : External) where
  abbrev pub is_claim_ready : XenonNodeClaim → Bool
  is_claim_ready claim = ext.is_status_condition_true claim.status.conditions "Ready"

  unfoldable pub in_flight : List XenonNodeClaim → ℕ
  in_flight [] = 0
  in_flight (c ∷ claims) =
      let rest = in_flight claims in if not (is_claim_ready c) then suc rest else rest

  -- `needed` of `scaleUp`, an int that may be negative
  unfoldable pub claims_needed : XenonNodePool → List Pod → List XenonNodeClaim → ℤ
  unfolding in_flight
  claims_needed pool pending claims =
      let needed = sub_ℕ (length pending) (in_flight claims) in
      let limit = pool_node_limit pool in
      if lt_int (pos 0) limit && lt_int limit (pos (length claims) +ℤ needed)
      then limit -ℤ pos (length claims)
      else needed

  unfoldable pub create_claim : XenonNodePool → Exec (Unit {0})
  create_claim pool = do
    claim ← lift (ext.set_controller_reference pool (new_claim pool))
    request ext (Call.create_claim claim)
    pure tt

  -- `for i := 0; i < needed; i++`
  unfoldable pub create_claims : XenonNodePool → ℕ → Exec (Unit {0})
  create_claims pool zero = pure tt
  create_claims pool (suc n) = do create_claim pool; create_claims pool n

  scale_up_for : XenonNodePool → List Pod → List XenonNodeClaim → Exec (Unit {0})
  scale_up_for pool [] claims = pure tt
  scale_up_for pool (p ∷ pending) claims =
      create_claims pool (pos_part (claims_needed pool (p ∷ pending) claims))

  unfoldable pub scale_up : XenonNodePool → List Pod → List XenonNodeClaim → Exec (Unit {0})
  unfolding scale_up_for
  scale_up = scale_up_for
