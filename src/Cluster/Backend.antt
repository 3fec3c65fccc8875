-- ===== src/Cluster/Backend.antt =====
-- A backend that returns the id of what it cloned, and the Proxmox backend as one.
use xenonite.Base.{
  ℕ, ◌≤◌, ◌+◌, String, ◌++◌, ◌∷◌, refl, sym, subst, ap, ◌∙◌, ◌==◌, eq_iff, ◌≡◌, ◌≢◌, Option, [],
  inl, inr, Bool-cases, arith, false,
}
use xenonite.Base.Int.{ℤ}
use xenonite.Api.Core.{Error}
use xenonite.Api.ProxmoxProvider.{ProxmoxProviderSpec, ProxmoxCredentials}
use xenonite.Provider.{CreateRequest, Provider}
use xenonite.Exec.{
  Call, called, Result, ok, err, History, External, Exec, PveVm, PveTask, CloneOptions, request,
  wrap, pure, ◌>>=◌,
}
use xenonite.Exec.Emits.{Emits, Emits-widen, Emits-wrap, Emits-request}
use xenonite.Exec.Failures.{Result-cases}
use xenonite.Exec.Triple.{Triple, Triple-bind, Triple-pure, Triple-attempt, Attempted}
use xenonite.Proxmox.{
  ProxmoxBackend, clone_template, after_clone, create_machine, new_backend, target_node,
  proxmox_provider, task_timeout_secs,
}
use xenonite.Proxmox.ProviderId.{new_provider_id}
use xenonite.Proxmox.ProviderId.RoundTrip.{new_provider_id-ne}
use xenonite.Proxmox.Emits.{
  IsUpkeep, set_up-IsUpkeep, delete_machine-IsUpkeep, get_machine-IsUpkeep,
}
use xenonite.Cluster.Ledger.{
  Ledger, ledger, ledger_last, ledger_last_two, entered, entered-neutral, settled-same, IsCovered,
  IsOnce, IsNeutral,
}
use xenonite.Cluster.Server.{Once, neutral-keeps}

-- Nothing is recorded yet for the claim that the request is for.
abbrev pub IsFresh : String → String → Ledger → Type 0
IsFresh w name l = IsOnce l × (name ≡ w → l.recorded ≡ "")

-- The VMs that were made for the claim of the request are covered by the id and what is lost.
abbrev pub Makes : String → String → String → Ledger → Type 0
Makes w name id l = (l.cloning ≡ false) × (name ≡ w → IsCovered id l) × (name ≢ w → IsOnce l)

abbrev pub Created : String → String → Result (String × Option Error) → History → Type 0
Created w name (ok (id, e)) h = Makes w name id (ledger w h)
Created w name (err e) h = Once w h

pub record IsAccountable (ext : External) (prov : Provider) : Type 0 where
  pub creates :
      (w : String) (req : CreateRequest)
      → Triple (λ h. IsFresh w req.name (ledger w h)) (prov.create req) (Created w req.name)
  pub deletes : (id : String) → Emits IsNeutral (prov.delete id)
  pub gets : (id : String) → Emits IsNeutral (prov.get id)

upkeep-IsNeutral : (c : Call) → IsUpkeep c → IsNeutral c
upkeep-IsNeutral (Call.update_claim_status _) h = h
upkeep-IsNeutral (Call.pve_clone _ _) h = h
upkeep-IsNeutral _ h = tt

fresh-Makes : (w name : String) (l : Ledger) → IsFresh w name l → Makes w name "" l
fresh-Makes w name l (once, new) = (once.0, (λ e. rw (new e) at (once.1)), λ _. once)

module _ (ext : External) (w : String) where
  -- One VM of the request's claim may be without an id.
  abbrev IsOf : String → Ledger → Type 0
  IsOf name l = (l.cloning ≡ false) × (name ≡ w → l.made ≤ 1 + l.lost) × (name ≢ w → IsOnce l)

  -- After a clone: its id is the result, or it was not accepted, or its task failed.
  abbrev Cloned : String → Result ℤ → History → Type 0
  Cloned name (ok n) h = IsOf name (ledger w h)
  Cloned name (err e) h = IsFresh w name (ledger w h)

  declined :
      (vm : PveVm) (opts : CloneOptions) (l : Ledger)
      → IsFresh w opts.name l
      → (e : Error) → IsFresh w opts.name (entered w l (called (Call.pve_clone vm opts) (err e)))
  declined vm opts l fresh e = subst (IsFresh w opts.name) (sym (settled-same l fresh.0.0)) fresh

  module _ (vm : PveVm) (opts : CloneOptions) (task : PveTask) (seconds : ℕ) (l : Ledger)
      (fresh : IsFresh w opts.name l) where
    none_made : opts.name ≡ w → l.made ≤ l.lost
    none_made same = let covered = rw (fresh.1 same) at (fresh.0.1) in omega (arith, covered)

    -- The clone, and the wait for it.
    abbrev waited : Result (Unit {0}) → Ledger
    waited r =
        entered w (entered w l (called (Call.pve_clone vm opts) (ok task)))
          (called (Call.pve_wait task seconds) r)

    elsewhere : (r : Result (Unit {0})) → (opts.name == w) ≡ false → waited r ≡ l
    elsewhere r f =
        let same : entered w l (called (Call.pve_clone vm opts) (ok task)) ≡ l =
          rw f (settled-same l fresh.0.0) in
        ap (λ k. entered w k (called (Call.pve_wait task seconds) r)) same
        ∙ entered-neutral w l (called (Call.pve_wait task seconds) r) fresh.0.0 tt

    ended : IsOf opts.name (waited (ok tt))
    ended = elim (Bool-cases (opts.name == w)) [
      | inl t ↦
          (let same = (eq_iff opts.name w).0 t in
            let few = none_made same in
            rw t (refl, (λ _. omega (arith, few)), λ ne. absurd (ne same)))
      | inr f ↦
          subst (IsOf opts.name) (sym (elsewhere (ok tt) f))
            (fresh.0.0, (λ same. let t = (eq_iff opts.name w).1 same in cc), λ _. fresh.0)
    ]

    failed : (e : Error) → IsFresh w opts.name (waited (err e))
    failed e = elim (Bool-cases (opts.name == w)) [
      | inl t ↦
          (let few = none_made ((eq_iff opts.name w).0 t) in
            rw t ((refl, omega (arith, few)), fresh.1))
      | inr f ↦ subst (IsFresh w opts.name) (sym (elsewhere (err e) f)) fresh
    ]

  clone_and_wait :
      (vm : PveVm) (opts : CloneOptions) (n : ℤ)
      → Triple
          (λ h. IsFresh w opts.name (ledger w h))
          (wrap "clone template" [] (request ext (Call.pve_clone vm opts)) >>= λ task.
            wrap "wait for clone" [] (request ext (Call.pve_wait task task_timeout_secs)) >>= λ _.
            pure n)
          (Cloned opts.name)
  unfolding ◌>>=◌ wrap request pure
  clone_and_wait vm opts n = record {
    at = λ h p. elim (Result-cases (ext.answer h (Call.pve_clone vm opts))) [
      | inr (e, refused) ↦ rw refused (rw ledger_last (declined vm opts (ledger w h) p e))
      | inl (task, taken) ↦
          elim (Result-cases (
            ext.answer (h ++ called (Call.pve_clone vm opts) (ok task) ∷ [])
              (Call.pve_wait task task_timeout_secs))) [
                | inl (_, fine) ↦
                    rw (taken, fine)
                      (rw ledger_last_two (ended vm opts task task_timeout_secs (ledger w h) p))
                | inr (e, wrong) ↦
                    rw (taken, wrong)
                      (rw ledger_last_two (failed vm opts task task_timeout_secs (ledger w h) p e))
              ]
    ];
  }

  clone_template-Cloned :
      (p : ProxmoxBackend) (req : CreateRequest)
      → Triple (λ h. IsFresh w req.name (ledger w h)) (clone_template ext p req) (Cloned req.name)
  unfolding clone_template
  clone_template-Cloned p req =
      Triple-bind _ _ still
        (quietly _ (Emits-wrap _ _ _ (Emits-request ext (Call.pve_cluster p.client) tt)))
        (λ _.
          Triple-bind _ _ still
            (quietly _ (Emits-wrap _ _ _ (Emits-request ext (Call.pve_next_id p.client) tt)))
            (λ n.
              Triple-bind _ _ still
                (quietly _ (Emits-wrap _ _ _ (Emits-request ext (Call.pve_node p.client _) tt)))
                (λ node.
                  Triple-bind _ _ still
                    (quietly _ (Emits-wrap _ _ _ (Emits-request ext (Call.pve_vm node _) tt)))
                    (λ tmpl. clone_and_wait tmpl _ n) (λ _ _ f. f))
                (λ _ _ f. f))
            (λ _ _ f. f))
        (λ _ _ f. f)
    where
      still : {A : Type 0} → Result A → History → Type 0
      still _ h = IsFresh w req.name (ledger w h)

      quietly :
          {A : Type 0} (m : Exec A)
          → Emits IsNeutral m
          → Triple (λ h. IsFresh w req.name (ledger w h)) m (λ _ h. IsFresh w req.name (ledger w h))
      quietly m e = neutral-keeps w (IsFresh w req.name) m (λ l f. f.0.0) e

  after_clone-Created :
      (p : ProxmoxBackend) (req : CreateRequest) (r : Result ℤ)
      → Triple (Cloned req.name r) (after_clone ext p req r) (Created w req.name)
  unfolding after_clone
  after_clone-Created p req (err e) = Triple-pure _ (λ h f. fresh-Makes w req.name (ledger w h) f)
  after_clone-Created p req (ok n) =
      Triple-bind _ _ (Attempted (λ _. Cloned req.name (ok n)))
        (Triple-attempt (λ _. Cloned req.name (ok n)) _
          (neutral-keeps w (IsOf req.name) _ (λ l c. c.0)
            (Emits-widen upkeep-IsNeutral _ (set_up-IsUpkeep ext p req n))))
        (λ done. Triple-pure _ (λ h c. (c.0, (λ e. rw known (c.1 e)), c.2))) (λ _ _ no. absurd no)
    where
      known : (new_provider_id (target_node p) n == "") ≡ false
      known = ground (
        arith,
        eq_iff (new_provider_id (target_node p) n) "",
        new_provider_id-ne (target_node p) n,
      )

  create_machine-Created :
      (p : ProxmoxBackend) (req : CreateRequest)
      → Triple
          (λ h. IsFresh w req.name (ledger w h))
          (create_machine ext p req)
          (Created w req.name)
  unfolding create_machine
  create_machine-Created p req =
      Triple-bind _ _ (Attempted (Cloned req.name))
        (Triple-attempt (Cloned req.name) _ (clone_template-Cloned p req))
        (λ r. after_clone-Created p req r) (λ _ _ no. absurd no)

-- The Proxmox backend returns the id of every VM that it cloned, but for those whose clone's task
-- failed.
pub proxmox_provider-IsAccountable :
    (ext : External)
    → (spec : ProxmoxProviderSpec) (creds : ProxmoxCredentials)
    → IsAccountable ext (proxmox_provider ext spec creds)
proxmox_provider-IsAccountable ext spec creds = record {
  creates = λ w req. create_machine-Created ext w (new_backend spec creds) req;
  deletes = λ id.
      Emits-widen upkeep-IsNeutral _ (delete_machine-IsUpkeep ext (new_backend spec creds) id);
  gets =
      λ id. Emits-widen upkeep-IsNeutral _ (get_machine-IsUpkeep ext (new_backend spec creds) id);
}
