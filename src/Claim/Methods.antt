-- ===== src/Claim/Methods.antt =====
-- internal/controller/xenonnodeclaim_controller.go: the methods that need the
-- client alone.
use xenonite.Base.Dict.{Dict}
use xenonite.Base.{String, Bool, not, none, some, Option, [], ◌∷◌, if◌then◌else◌}
use xenonite.Api.Core.{
  Error, Message, text, error_text, str, errorf, Node, CtrlResult, condition_true, condition_false,
}
use xenonite.Api.Labels.{finalizer_node_claim}
use xenonite.Api.NodeClaim.{XenonNodeClaim}
use xenonite.Exec.{
  Result, ok, err, Exec, External, get_node, update_claim, update_claim_status, patch_node, pure,
  raise, attempt, request, ◌>>=◌, ◌>>◌,
}
use xenonite.Provider.{Instance, Provider}
use xenonite.Claim.Objects.{
  done, poll, create_request, is_node_ready, with_finalizers, record_id, node_labels,
}

module _ (ext : External) where
  unfoldable pub set_condition :
      XenonNodeClaim → String → String → String → Message → XenonNodeClaim
  set_condition claim type status reason message = record claim {
    status = record claim.status {
      conditions =
          ext.set_status_condition claim.status.conditions
            (record { type = type; status = status; reason = reason; message = message });
    };
  }

  -- `_ = r.Status().Update(ctx, claim)`, then `return ctrl.Result{}, err`
  unfoldable pub fail_with_status : XenonNodeClaim → Error → Exec CtrlResult
  fail_with_status claim e = do attempt (request ext (update_claim_status claim)); raise e

  unfoldable pub patch_labels : Node → Dict String × Bool → Exec Node
  patch_labels node (labels, changed) =
      if not changed
      then pure node
      else request ext
          (patch_node node (record node { metadata = record node.metadata { labels = labels } }))

  unfoldable pub label_node : Node → XenonNodeClaim → Exec Node
  unfolding patch_labels
  label_node node claim = patch_labels node (node_labels claim node.metadata.labels)

  unfoldable pub remove_finalizer : XenonNodeClaim → Exec CtrlResult
  remove_finalizer claim =
      let (fs, changed) = ext.remove_finalizer claim.metadata.finalizers finalizer_node_claim in
      if changed
      then (do request ext (update_claim (with_finalizers fs claim)); pure done)
      else pure done

  unfoldable pub ensure_finalizer : XenonNodeClaim → Exec XenonNodeClaim
  ensure_finalizer claim =
      let (fs, changed) = ext.add_finalizer claim.metadata.finalizers finalizer_node_claim in
      if changed
      then request ext (update_claim (with_finalizers fs claim))
      else pure (with_finalizers fs claim)

  unfoldable pub ready_condition : Node → XenonNodeClaim → XenonNodeClaim
  ready_condition node claim =
      if is_node_ready node
      then set_condition claim "Ready" condition_true "NodeReady" (text "node registered and ready")
      else set_condition claim "Ready" condition_false "NodeNotReady"
          (text "node registered, kubelet not ready")

  unfoldable pub with_node : XenonNodeClaim → Result Node → Exec CtrlResult
  with_node claim (err e) =
      if ext.is_not_found e
      then (do
        request ext (
            update_claim_status (
              set_condition claim "Ready" condition_false "NodeNotRegistered"
                (text "waiting for node to join")))
        pure poll)
      else raise e
  with_node claim (ok node) = do
    node' ← label_node node claim
    request ext (update_claim_status (ready_condition node' claim))
    pure (if is_node_ready node' then done else poll)

  unfoldable pub reconcile_readiness : XenonNodeClaim → Exec CtrlResult
  unfolding with_node
  reconcile_readiness claim = do
    found ← attempt (request ext (get_node claim.metadata.name))
    with_node claim found

  unfoldable pub after_create : XenonNodeClaim → Option Error → Exec CtrlResult
  unfolding fail_with_status
  after_create claim (some e) =
      fail_with_status
        (set_condition claim "Launched" condition_false "CreateFailed" (error_text e)) e
  after_create claim none = do
    request ext (
        update_claim_status (
          set_condition claim "Launched" condition_true "Created" (text "backing machine created")))
    pure poll

  unfoldable pub with_user_data : XenonNodeClaim → Provider → Result String → Exec CtrlResult
  unfolding fail_with_status after_create
  with_user_data claim prov (err e) =
      fail_with_status
        (set_condition claim "Ready" condition_false "CloudInitRenderFailed" (error_text e)) e
  with_user_data claim prov (ok user_data) = do
    (id, create_err) ← prov.create (create_request claim user_data)
    after_create (record_id id claim) create_err

  unfoldable pub release_if_gone : XenonNodeClaim → Option Instance → Exec CtrlResult
  unfolding remove_finalizer
  release_if_gone claim none = remove_finalizer claim
  release_if_gone claim (some inst) =
      raise (
        errorf "machine %s still exists after delete; retrying" (str claim.status.provider_id ∷ []))
