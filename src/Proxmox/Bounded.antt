-- ===== src/Proxmox/Bounded.antt =====
-- How many calls the backend makes, and how long it waits.
use xenonite.Base.{String, arith}
use xenonite.Base.Int.{ℤ}
use xenonite.Exec.{External, Result, ok, err, ◌>>=◌, request}
use xenonite.Exec.Bounded.{Bounded, Bounded-bind, Bounded-attempt, Bounded-more, Bounded-pure}
use xenonite.Provider.{CreateRequest}
use xenonite.Proxmox.{
  ProxmoxBackend, clone_template, set_up, after_clone, create_machine, delete_machine, get_machine,
}

module _ (ext : External) (p : ProxmoxBackend) where
  clone_template-Bounded : (req : CreateRequest) → Bounded 6 600 (clone_template ext p req)
  unfolding clone_template ◌>>=◌ request
  clone_template-Bounded req = record { at = λ h. ground arith }

  set_up-Bounded : (req : CreateRequest) (n : ℤ) → Bounded 7 1200 (set_up ext p req n)
  unfolding set_up ◌>>=◌ request
  set_up-Bounded req n = record { at = λ h. ground arith }

  after_clone-Bounded :
      (req : CreateRequest) (r : Result ℤ) → Bounded 7 1200 (after_clone ext p req r)
  unfolding after_clone
  after_clone-Bounded req (err e) =
      Bounded-more 7 1200 _ (omega arith) (omega arith) (Bounded-pure _)
  after_clone-Bounded req (ok n) =
      Bounded-bind _ _ (Bounded-attempt _ (set_up-Bounded req n)) (λ _. Bounded-pure _)

  pub create_machine-Bounded : (req : CreateRequest) → Bounded 13 1800 (create_machine ext p req)
  unfolding create_machine
  create_machine-Bounded req =
      Bounded-bind _ _ (Bounded-attempt _ (clone_template-Bounded req)) (after_clone-Bounded req)

  pub delete_machine-Bounded : (id : String) → Bounded 6 1200 (delete_machine ext p id)
  unfolding delete_machine ◌>>=◌ request
  delete_machine-Bounded id = record { at = λ h. ground arith }

  pub get_machine-Bounded : (id : String) → Bounded 2 0 (get_machine ext p id)
  unfolding get_machine ◌>>=◌ request
  get_machine-Bounded id = record { at = λ h. ground arith }
