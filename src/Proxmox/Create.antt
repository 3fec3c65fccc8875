-- ===== src/Proxmox/Create.antt =====
-- What `Create` calls and what it returns.
use xenonite.Base.{String, ◌≡◌, ◌≢◌, refl, Option, some, List, ◌++◌, arith, Any, Any-left, ap}
use xenonite.Base.Int.{ℤ}
use xenonite.Api.Core.{Error}
use xenonite.Exec.{
  Call, External, Result, ok, err, Event, called, History, PveNode, PveVm, PveTask, ◌>>=◌, request,
}
use xenonite.Provider.{CreateRequest}
use xenonite.Go.Strings.Laws.{NoSlash}
use xenonite.Go.Strconv.Laws.{IsInt64}
use xenonite.Proxmox.ProviderId.{new_provider_id, parse_provider_id}
use xenonite.Proxmox.ProviderId.RoundTrip.{parse-new}
use xenonite.Proxmox.{
  ProxmoxBackend, target_node, clone_template, set_up, after_clone, create_machine, error_of,
}

-- The event is a clone into the VM id, on the node.
abbrev pub ClonesTo : String → ℤ → Event → Type 0
ClonesTo node n (called (Call.pve_clone _ opts) _) = (opts.target ≡ node) × (opts.new_id ≡ n)
ClonesTo node n _ = ⊥

-- The lookup of a VM id on a node found the VM.
abbrev pub Finds : PveNode → ℤ → PveVm → Event → Type 0
Finds node n vm (called (Call.pve_vm nd k) (ok v)) = (nd ≡ node) × (k ≡ n) × (v ≡ vm)
Finds node n vm _ = ⊥

-- The event hands the VM the user data for cloud-init, with success.
abbrev pub GivesUserData : PveVm → String → Event → Type 0
GivesUserData vm data' (called (Call.pve_cloud_init v _ d _) (ok _)) = (v ≡ vm) × (d ≡ data')
GivesUserData vm data' _ = ⊥

-- The event starts the VM as a task.
abbrev pub Starts : PveVm → PveTask → Event → Type 0
Starts vm task (called (Call.pve_start v) (ok t)) = (v ≡ vm) × (t ≡ task)
Starts vm task _ = ⊥

-- The wait for the task ended with success.
abbrev pub Waits : PveTask → Event → Type 0
Waits task (called (Call.pve_wait t _) (ok _)) = t ≡ task
Waits task _ = ⊥

-- The VM that the node shows under the id was handed the user data and was started, and its start
-- was waited for.
pub record IsStarted (user_data : String) (node : PveNode) (n : ℤ) (es : List Event) : Type 0 where
  pub vm : PveVm
  pub task : PveTask
  pub found : Any (Finds node n vm) es
  pub given : Any (GivesUserData vm user_data) es
  pub started : Any (Starts vm task) es
  pub waited : Any (Waits task) es

-- What `Create` returns after the calls `es`: no id and an error, or the id of a clone that it
-- made, with or without an error.
pub data IsTracked (target : String) (r : Result (String × Option Error)) (es : List Event)
    : Type 0 where
  nothing : (e : Error) → r ≡ ok ("", some e) → IsTracked target r es
  clone :
      (n : ℤ) (e : Option Error)
      → r ≡ ok (new_provider_id target n, e)
      → Any (ClonesTo target n) es
      → IsTracked target r es

module _ (ext : External) (p : ProxmoxBackend) (req : CreateRequest) where
  pub clone_template-ClonesTo :
      (h : History) (n : ℤ)
      → (clone_template ext p req h).0 ≡ ok n
      → Any (ClonesTo (target_node p) n) (clone_template ext p req h).1
  unfolding clone_template ◌>>=◌ request
  clone_template-ClonesTo h n e = ground arith

  -- The target node's handle was asked for by its name.
  abbrev AsksNode : PveNode → Event → Type 0
  AsksNode node (called (Call.pve_node client name) (ok nd)) =
      (client ≡ p.client) × (name ≡ target_node p) × (nd ≡ node)
  AsksNode node _ = ⊥

  -- The VM of the id, on the target node, was set up and started.
  abbrev pub IsSetUp : ℤ → List Event → Type 0
  IsSetUp n es =
      (node : PveNode) × Any (AsksNode node) es × IsStarted req.cloud_init_user_data node n es

  after_clone-IsTracked :
      (r : Result ℤ) (h : History) (es : List Event)
      → ((n : ℤ) → r ≡ ok n → Any (ClonesTo (target_node p) n) es)
      → IsTracked
          (target_node p)
          (after_clone ext p req r h).0
          (es ++ (after_clone ext p req r h).1)
  unfolding after_clone ◌>>=◌
  after_clone-IsTracked (err e) h es cloned = nothing e refl
  after_clone-IsTracked (ok n) h es cloned =
      clone n (error_of (set_up ext p req n h).0) refl
        (Any-left (ClonesTo (target_node p) n) es _ (cloned n refl))

  pub create_machine-IsTracked :
      (h : History)
      → IsTracked (target_node p) (create_machine ext p req h).0 (create_machine ext p req h).1
  unfolding create_machine ◌>>=◌
  create_machine-IsTracked h =
      after_clone-IsTracked (clone_template ext p req h).0 _ _ (clone_template-ClonesTo h)

  -- The machine of the id was cloned onto the target node, set up and started.
  abbrev pub IsMade : String → List Event → Type 0
  IsMade id es =
      (n : ℤ) × (id ≡ new_provider_id (target_node p) n)
      × Any (ClonesTo (target_node p) n) es
      × IsSetUp n es

  -- The id that `Create` returns, with or without an error, is parsed by `Delete` and `Get` to the
  -- target node and the VM id that was cloned into, if the node's name is not empty and has no
  -- slash and the ids that Proxmox hands out fit an int.
  pub parse-create_machine :
      (h : History) (id : String) (e : Option Error)
      → target_node p ≢ ""
      → NoSlash (target_node p)
      → ((n : ℤ) → Any (ClonesTo (target_node p) n) (create_machine ext p req h).1 → IsInt64 n)
      → (create_machine ext p req h).0 ≡ ok (id, e)
      → id ≢ ""
      → (n : ℤ) × (parse_provider_id id ≡ ok (target_node p, n))
        × Any (ClonesTo (target_node p) n) (create_machine ext p req h).1
  parse-create_machine h id e ne plain fits q some_id = go (create_machine-IsTracked h)
    where
      go :
          IsTracked (target_node p) (create_machine ext p req h).0 (create_machine ext p req h).1
          → (n : ℤ) × (parse_provider_id id ≡ ok (target_node p, n))
            × Any (ClonesTo (target_node p) n) (create_machine ext p req h).1
      go (nothing e' r) = absurd (some_id (ground arith))
      go (clone n e' r c) = (
        n,
        rw (← parse-new (target_node p) n ne plain (fits n c))
            (ap parse_provider_id (ground arith)),
        c,
      )
