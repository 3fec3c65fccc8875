-- ===== src/Exec.antt =====
-- How the controllers act. What is outside of this repository (the API server, the Proxmox API,
-- the clock, the libraries) answers a call by anything at all, and may answer by all that was
-- called before: the parameter `External`. An action returns a Go `(value, error)` pair and the
-- calls that it made, in order.

pub mod Emits
pub mod Laws
pub mod Inversion
pub mod Triple
pub mod Failures
pub mod Yields
pub mod Blames
pub mod Bounded
use xenonite.Base.{ℕ, String, List, [], ◌∷◌, ◌++◌, Bool, Option}
use xenonite.Base.Int.{ℤ}
use xenonite.Base.Dict.{Dict}
use xenonite.Api.Core.{Error, wrapf, Arg, Condition, Pod, Node, Secret}
use xenonite.Api.NodeClaim.{XenonNodeClaim}
use xenonite.Api.NodePool.{XenonNodePool}
use xenonite.Api.ProxmoxProvider.{ProxmoxProvider, ProxmoxCredentials}

pub data Result {ℓ} (A : Type ℓ) : Type ℓ where
  ok : A → Result A
  err : Error → Result A

-- A go-proxmox client, by what `New` configures it with, and the handles that it gives out.
pub record PveClient : Type 0 where
  pub endpoint : String
  pub insecure_skip_verify : Bool
  pub credentials : ProxmoxCredentials

pub record PveNode : Type 0 where
  pub client : PveClient
  pub name : String

pub record PveVm : Type 0 where
  pub node : PveNode
  pub vmid : ℤ
  pub status : String

pub record PveTask : Type 0 where
  pub upid : String

pub record CloneOptions : Type 0 where
  pub new_id : ℤ
  pub name : String
  pub target : String
  pub storage : String
  pub pool : String
  pub full : Bool

pub record VmOption : Type 0 where
  pub name : String
  pub value : Arg

pub record DeleteOptions : Type 0 where
  pub purge : Bool
  pub destroy_unreferenced_disks : Bool

pub data Call : Type 0 where
  -- client.Client
  get_claim get_pool get_provider get_node : String → Call
  get_secret : (namespace name : String) → Call
  list_pods : Call
  list_pods_on : (node : String) → Call
  list_claims : (pool_label : String) → Call
  create_claim delete_claim update_claim update_claim_status : XenonNodeClaim → Call
  patch_claim : (old new : XenonNodeClaim) → Call
  patch_node : (old new : Node) → Call
  update_pool_status : XenonNodePool → Call
  -- go-proxmox
  pve_cluster pve_next_id : PveClient → Call
  pve_node : PveClient → String → Call
  pve_vm : PveNode → ℤ → Call
  pve_clone : PveVm → CloneOptions → Call
  pve_config : PveVm → List VmOption → Call
  pve_cloud_init : PveVm → (device user_data storage : String) → Call
  pve_start pve_stop : PveVm → Call
  pve_delete : PveVm → DeleteOptions → Call
  pve_wait : PveTask → (seconds : ℕ) → Call

-- What a call that succeeds returns; a write returns the object that the server stored.
abbrev pub Reply : Call → Type 0
Reply (get_claim _) = XenonNodeClaim
Reply (get_pool _) = XenonNodePool
Reply (get_provider _) = ProxmoxProvider
Reply (get_node _) = Node
Reply (get_secret _ _) = Secret
Reply list_pods = List Pod
Reply (list_pods_on _) = List Pod
Reply (list_claims _) = List XenonNodeClaim
Reply (create_claim _) = XenonNodeClaim
Reply (delete_claim _) = Unit
Reply (update_claim _) = XenonNodeClaim
Reply (update_claim_status _) = XenonNodeClaim
Reply (patch_claim _ _) = XenonNodeClaim
Reply (patch_node _ _) = Node
Reply (update_pool_status _) = XenonNodePool
Reply (pve_cluster _) = Unit
Reply (pve_next_id _) = ℤ
Reply (pve_node _ _) = PveNode
Reply (pve_vm _ _) = PveVm
Reply (pve_clone _ _) = PveTask
Reply (pve_config _ _) = PveTask
Reply (pve_cloud_init _ _ _ _) = Unit
Reply (pve_start _) = PveTask
Reply (pve_stop _) = PveTask
Reply (pve_delete _ _) = PveTask
Reply (pve_wait _ _) = Unit

pub data Event : Type 0 where
  called : (c : Call) → Result (Reply c) → Event
  read_clock : ℤ → Event

abbrev pub History : Type 0
History = List Event

pub record External : Type 0 where
  pub answer : History → (c : Call) → Result (Reply c)
  pub clock : History → ℤ
  -- apierrors.IsNotFound, client.IgnoreNotFound, proxmox.IsNotFound
  pub is_not_found : Error → Bool
  pub ignore_not_found : Error → Option Error
  pub pve_is_not_found : Error → Bool
  -- apimeta.SetStatusCondition, apimeta.IsStatusConditionTrue
  pub set_status_condition : List Condition → Condition → List Condition
  pub is_status_condition_true : List Condition → String → Bool
  -- controllerutil's functions on finalizers; the flag says whether the list changed
  pub contains_finalizer : List String → String → Bool
  pub add_finalizer : List String → String → List String × Bool
  pub remove_finalizer : List String → String → List String × Bool
  pub set_controller_reference : XenonNodePool → XenonNodeClaim → Result XenonNodeClaim
  -- text/template: Parse, then Execute on a map
  pub parse_template : String → Result (Dict String → Result String)
  -- package time: UTC().Format(RFC3339), Parse(RFC3339, …)
  pub format_rfc3339 : ℤ → String
  pub parse_rfc3339 : String → Result ℤ

abbrev pub Exec {ℓ} : Type ℓ → Type ℓ
Exec A = History → Result A × List Event

module _ {ℓ} {A : Type ℓ} where
  unfoldable pub pure : A → Exec A
  pure a h = (ok a, [])

  unfoldable pub raise : Error → Exec A
  raise e h = (err e, [])

  unfoldable pub lift : Result A → Exec A
  lift r h = (r, [])

  -- `value, err := f()`, where the code goes on after an error.
  unfoldable pub attempt : Exec A → Exec (Result A)
  attempt m h = let (r, es) = m h in (ok r, es)

  -- return …, fmt.Errorf("…: %w", …, err)
  abbrev pub wrap_result : String → List Arg → Result A → Result A
  wrap_result format args (ok a) = ok a
  wrap_result format args (err e) = err (wrapf format args e)

  unfoldable pub wrap : String → List Arg → Exec A → Exec A
  wrap format args m h = let (r, es) = m h in (wrap_result format args r, es)

module _ {ℓ κ} {A : Type ℓ} {B : Type κ} where
  abbrev pub continue : Result A → (A → Exec B) → History → List Event → Result B × List Event
  continue (ok a) f h es = let (r, es') = f a (h ++ es) in (r, es ++ es')
  continue (err e) f h es = (err e, es)

  infixl 5 ◌>>=◌ ◌>>◌
  -- `a, err := m(); if err != nil { return err }`, and the rest of the function
  unfoldable pub ◌>>=◌ : Exec A → (A → Exec B) → Exec B
  unfolding pure raise lift attempt wrap
  ◌>>=◌ m f h = let (r, es) = m h in continue r f h es

  abbrev pub ◌>>◌ : Exec A → Exec B → Exec B
  m >> n = m >>= λ _. n

module _ (ext : External) where
  unfoldable pub request : (c : Call) → Exec (Reply c)
  request c h = let r = ext.answer h c in (r, called c r ∷ [])

  -- time.Now()
  unfoldable pub now : Exec ℤ
  now h = let t = ext.clock h in (ok t, read_clock t ∷ [])
