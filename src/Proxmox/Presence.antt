-- ===== src/Proxmox/Presence.antt =====
-- Create against the states of a VM.
pub mod Sight
pub mod Reads
pub mod RoundTrip
use xenonite.Base.{
  String, List, [], ◌∷◌, ◌++◌, ◌≡◌, refl, sym, subst, append_assoc, Any, Any-left, arith, true,
  none, ◌==◌, eq_refl, ap, ◌∙◌,
}
use xenonite.Base.Int.{ℤ, eq_int_refl}
use xenonite.Api.Core.{Arg}
use xenonite.Exec.{
  Call, Event, called, External, Result, ok, err, History, PveVm, PveNode, PveTask, CloneOptions,
  Exec, attempt, wrap, pure, request, ◌>>=◌,
}
use xenonite.Exec.Triple.{Triple, Triple-pure}
use xenonite.Exec.Yields.{Yields, Yields-any, Yields-bind, Yields-wrap, Yields-request}
use xenonite.Provider.{CreateRequest}
use xenonite.Proxmox.{
  ProxmoxBackend, target_node, clone_template, set_up, after_clone, create_machine,
  task_timeout_secs,
}
use xenonite.Proxmox.ProviderId.{new_provider_id}
use xenonite.Proxmox.Create.{ClonesTo, clone_template-ClonesTo}
use xenonite.Proxmox.Machines.{
  Machine, Presence, presence, after, after_all, is_on, is_clone, ended,
}
use xenonite.Proxmox.Machines.Laws.{NamesHandles, after_all-append, is_on_refl}

pub presence-append :
    (m : Machine) (h : History) (es : List Event)
    → presence m (h ++ es) ≡ after_all m (presence m h) es
presence-append m h es = after_all-append m Presence.unknown h es

-- From the state before to the state after.
pub presence-after :
    (m : Machine) (h : History) (es : List Event) (s t : Presence)
    → presence m h ≡ s
    → after_all m s es ≡ t
    → presence m (h ++ es) ≡ t
presence-after m h es s t before moved =
    presence-append m h es ∙ ap (λ s. after_all m s es) before ∙ moved

-- The wait for the task that a machine is in.
wait-ended : (t : PveTask) → ended t (Presence.cloning t.upid) ≡ Presence.present
wait-ended t = ground (arith, eq_refl t.upid)

-- The backend's machine on a node.
abbrev pub machine : ProxmoxBackend → String → ℤ → Machine
machine p node vmid = record { endpoint = p.client.endpoint; node = node; vmid = vmid }

module _ (p : ProxmoxBackend) where
  -- The machine that is cloned is there.
  abbrev pub Made : String → ℤ → History → Type 0
  Made node n h = presence (machine p node n) h ≡ Presence.present

module _ (ext : External) (names : NamesHandles ext) (p : ProxmoxBackend) where
  -- A clone of a template in the backend's cluster.
  cloning-accepted :
      (template : PveVm) (opts : CloneOptions) (t : PveTask) (s : Presence)
      → template.node.client ≡ p.client
      → after (machine p opts.target opts.new_id) s (called (Call.pve_clone template opts) (ok t))
        ≡ Presence.cloning t.upid
  cloning-accepted template opts t s same =
      rw same
        (ground (arith, eq_refl p.client.endpoint, eq_refl opts.target, eq_int_refl opts.new_id))

  clone_and_wait :
      (template : PveVm) (opts : CloneOptions)
      → Triple
          (λ h. template.node.client ≡ p.client)
          (wrap "clone template" [] (request ext (Call.pve_clone template opts)) >>= λ t.
            wrap "wait for clone" [] (request ext (Call.pve_wait t task_timeout_secs)) >>= λ _.
            pure opts.new_id)
          (Yields (Made p opts.target))
  clone_and_wait template opts =
      Yields-bind _ _
        (λ (t : PveTask) h.
          presence (machine p opts.target opts.new_id) h ≡ Presence.cloning t.upid)
        (Yields-wrap _ _ _ (
          Yields-request ext (Call.pve_clone template opts)
            (λ t g same _. presence-append _ g _ ∙ cloning-accepted template opts t _ same)))
        (λ t.
          Yields-bind _ _ (λ _. Made p opts.target opts.new_id)
            (Yields-wrap _ _ _ (
              Yields-request ext (Call.pve_wait t task_timeout_secs) (λ _ g is_cloning _.
                presence-append _ g _ ∙ ap (ended t) is_cloning ∙ wait-ended t)))
            (λ _. Triple-pure opts.new_id (λ h made. made)))

  module _ (format : String) (args : List Arg) where
    node_asked :
        (name : String)
        → Triple
            (λ h. Unit)
            (wrap format args (request ext (Call.pve_node p.client name)))
            (Yields (λ nd _. nd.client ≡ p.client))
    node_asked name = Yields-wrap format args _ (
        Yields-request ext (Call.pve_node p.client name)
          (λ nd g _ e. ap (λ x. x.client) (names.node_asked g p.client name nd e)))

    vm_asked :
        (nd : PveNode) (vmid : ℤ)
        → Triple
            (λ h. nd.client ≡ p.client)
            (wrap format args (request ext (Call.pve_vm nd vmid)))
            (Yields (λ vm _. vm.node.client ≡ p.client))
    vm_asked nd vmid = Yields-wrap format args _ (
        Yields-request ext (Call.pve_vm nd vmid)
          (λ vm g same e. ap (λ x. x.client) (names.vm_asked g nd vmid vm e).0 ∙ same))

  module _ (req : CreateRequest) where
    clone_template-present :
        Triple (λ h. Unit) (clone_template ext p req) (Yields (Made p (target_node p)))
    unfolding clone_template
    clone_template-present =
        Yields-bind _ _ (λ _ _. Unit) (Yields-any _)
          (λ _.
            Yields-bind _ _ (λ _ _. Unit) (Yields-any _)
              (λ n.
                Yields-bind _ _ (λ (nd : PveNode) _. nd.client ≡ p.client)
                  (node_asked _ _ p.spec.source_template.node)
                  (λ nd.
                    Yields-bind _ _ (λ (vm : PveVm) _. vm.node.client ≡ p.client)
                      (vm_asked _ _ nd p.spec.source_template.vmid) (λ vm. clone_and_wait vm _))))

    -- What sets the machine up leaves it where it is.
    set_up-present :
        (m : Machine) (h : History) (n : ℤ) (id : String)
        → (after_clone ext p req (ok n) h).0 ≡ ok (id, none)
        → after_all m Presence.present (after_clone ext p req (ok n) h).1 ≡ Presence.present
    unfolding after_clone set_up ◌>>=◌ request
    set_up-present m h n id e = ground arith

    -- After `Create` returned an id and no error, the machine of that id is there.
    after_clone-present :
        (r : Result ℤ) (h : History) (id : String)
        → Yields (Made p (target_node p)) r h
        → (after_clone ext p req r h).0 ≡ ok (id, none)
        → (n : ℤ) × (r ≡ ok n)
          × (id ≡ new_provider_id (target_node p) n)
          × Made p (target_node p) n (h ++ (after_clone ext p req r h).1)
    unfolding after_clone ◌>>=◌
    after_clone-present (err e) h id made q = ground arith
    after_clone-present (ok n) h id made q = (
      n,
      refl,
      ground arith,
      presence-append _ h _
          ∙ ap (λ s. after_all (machine p (target_node p) n) s (after_clone ext p req (ok n) h).1)
              made
          ∙ set_up-present _ h n id q,
    )

    pub create_machine-present :
        (h : History) (id : String)
        → (create_machine ext p req h).0 ≡ ok (id, none)
        → (n : ℤ) × (id ≡ new_provider_id (target_node p) n)
          × Any (ClonesTo (target_node p) n) (create_machine ext p req h).1
          × Made p (target_node p) n (h ++ (create_machine ext p req h).1)
    unfolding create_machine ◌>>=◌ attempt
    create_machine-present h id q =
        let (n, cloned, same, made) =
          after_clone-present (clone_template ext p req h).0 (h ++ (clone_template ext p req h).1)
            id (clone_template-present.at h tt) q in
        (
          n,
          same,
          Any-left (ClonesTo (target_node p) n) _ _ (clone_template-ClonesTo ext p req h n cloned),
          subst (Made p (target_node p) n) (append_assoc h _ _) made,
        )
