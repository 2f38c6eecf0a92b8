-- ===== src/Cni/Attach/Undone.antt =====
-- Connect of internal/adapters/cni/adapter.go, by how it ends: a failed call leaves the ports and the tracked
-- attachments as they were, a successful one tracks what it has reserved.
use dockerdless.Base.{
  ℕ, ◌≡◌, refl, sym, ap, ◌∙◌, subst, arith, inl, inr, false, Option, none, some, List, [], Text,
  is_empty, trim_space, lookup, insert, Result, ok, err, Result-cases, if_both,
}
use dockerdless.Domain.Model.{PortBinding, NetworkAttachment}
use dockerdless.Domain.Registry.{ContextError}
use dockerdless.Cni.Ports.{PortKey, PortAllocation, PortError, port_key_eq, release}
use dockerdless.Cni.Ports.Allocate.{Probe, allocate_bindings}
use dockerdless.Cni.Ports.Batch.{allocate_bindings_rollback}
use dockerdless.Cni.Ports.Undo.{release-allocate_bindings}
use dockerdless.Cni.Modes.{NetworkError, Mode, host, isolated, network, port_failed}
use dockerdless.Cni.Config.{Network}
use dockerdless.Cni.Networks.{Host, resolve}
use dockerdless.Cni.Attach.{
  ConnectRequest, ConnectResult, Adapter, AttachmentKey, AttachmentState, attachment_key_eq,
  Plugins, normalize_if_name, prepare_connect_ports, add_container_network, release_on_failure,
  conclude_connect, finish_connect, connect_prepared, connect_loaded, connect_named, connect_mode,
  connect_resolved, connect, connect_fresh, track_attachment,
}

abbrev pub key_for : ConnectRequest → Network → AttachmentKey
key_for req n = record { container = req.container; network = n.name }

module _ {W : Type 0} where
  -- Files, ports and tracked attachments are the same.
  pub record Unchanged (a b : Adapter W) : Type 0 where
    pub files : b.files ≡ a.files
    pub attachments : b.attachments ≡ a.attachments
    pub ports : (k : PortKey) → lookup k b.alloc.used ≡ lookup k a.alloc.used

  pub Unchanged-refl : (a : Adapter W) → Unchanged a a
  Unchanged-refl a = record { files = refl; attachments = refl; ports = λ k. refl }

  -- What a successful connect to a named network has done.
  pub record Tracks (parse_ip : Text → Option (List ℕ)) (probe : Probe) (a : Adapter W)
      (req : ConnectRequest) (n : Network) (r : ConnectResult) (b : Adapter W) : Type 0 where
    pub state : AttachmentState
    pub files : b.files ≡ a.files
    pub attachments : b.attachments ≡ insert (key_for req n) state a.attachments
    pub alloc : b.alloc ≡ (allocate_bindings parse_ip probe a.alloc req.ports).1
    pub given :
        (allocate_bindings parse_ip probe a.alloc req.ports).0 ≡ ok (r.ports, state.allocations)
    pub ports : state.ports ≡ r.ports

  -- How a call ends.
  abbrev pub Ends :
      (Text → Option (List ℕ))
      → Probe
      → Adapter W
      → ConnectRequest
      → Network
      → Result NetworkError ConnectResult × Adapter W
      → Type 0
  Ends parse_ip probe a req n (err e, b) = Unchanged a b
  Ends parse_ip probe a req n (ok r, b) = Tracks parse_ip probe a req n r b

  -- A failure leaves the state as it was.
  abbrev pub Fails : Adapter W → Result NetworkError ConnectResult × Adapter W → Type 0
  Fails a s = (e : NetworkError) → s.0 ≡ err e → Unchanged a s.1

  Ends→Fails :
      (parse_ip : Text → Option (List ℕ)) (probe : Probe) (a : Adapter W) (req : ConnectRequest)
      (n : Network) (s : Result NetworkError ConnectResult × Adapter W)
      → Ends parse_ip probe a req n s
      → Fails a s
  Ends→Fails parse_ip probe a req n (err e, b) ends d failed = ends
  Ends→Fails parse_ip probe a req n (ok r, b) ends d failed = absurd (cc failed)

module _ {W C : Type 0} (h : Host) (plugins : Plugins W C) (parse_ip : Text → Option (List ℕ))
    (probe : Probe) where
  -- The plugins and what follows them change nothing but the world.
  add_container_network-frame :
      (a : Adapter W) (n : Network) (req : ConnectRequest) (conf : C) (if_name : Text)
      (filled : List PortBinding)
      → let b = (add_container_network h plugins parse_ip probe a n req conf if_name filled).1 in
        (b.files ≡ a.files) × (b.alloc ≡ a.alloc) × (b.attachments ≡ a.attachments)
  unfolding add_container_network
  add_container_network-frame a n req conf if_name filled = ground arith

  conclude_connect-Ends :
      (a : Adapter W) (n : Network) (req : ConnectRequest) (fs : List PortBinding)
      (xs : List PortAllocation) (answer : Result NetworkError NetworkAttachment × Adapter W)
      → (allocate_bindings parse_ip probe a.alloc req.ports).0 ≡ ok (fs, xs)
      → answer.1.files ≡ a.files
      → answer.1.alloc ≡ (allocate_bindings parse_ip probe a.alloc req.ports).1
      → answer.1.attachments ≡ a.attachments
      → Ends parse_ip probe a req n
          (conclude_connect h plugins parse_ip probe n req (fs, xs) false answer)
  unfolding conclude_connect release_on_failure track_attachment
  conclude_connect-Ends a n req fs xs (err e, b) given files held tracked = record {
    files = files;
    attachments = tracked;
    ports = λ k.
        ap (λ c. lookup k (release xs c).used) held
        ∙ release-allocate_bindings parse_ip probe a.alloc req.ports fs xs given k;
  }
  conclude_connect-Ends a n req fs xs (ok attachment, b) given files held tracked = record {
    state = record {
      allocations = xs;
      ports = fs;
      netns = req.netns;
      if_name = normalize_if_name req.if_name;
    };
    files = files;
    attachments = ap (insert (key_for req n) _) tracked;
    alloc = held;
    given = given;
    ports = refl;
  }

  finish_connect-Ends :
      (a : Adapter W) (n : Network) (req : ConnectRequest) (conf : C) (fs : List PortBinding)
      (xs : List PortAllocation)
      → (allocate_bindings parse_ip probe a.alloc req.ports).0 ≡ ok (fs, xs)
      → Ends parse_ip probe a req n (
          finish_connect h plugins parse_ip probe
            (record a { alloc = (allocate_bindings parse_ip probe a.alloc req.ports).1 })
            n
            req
            conf
            (fs, xs)
            false)
  unfolding finish_connect
  finish_connect-Ends a n req conf fs xs given =
      let b : Adapter W = record a {
        alloc = (allocate_bindings parse_ip probe a.alloc req.ports).1;
      } in
      let if_name = normalize_if_name req.if_name in
      let frame = add_container_network-frame b n req conf if_name fs in
      conclude_connect-Ends a n req fs xs
        (add_container_network h plugins parse_ip probe b n req conf if_name fs) given frame.0
        frame.1 frame.2

  refused-Ends :
      (a : Adapter W) (n : Network) (req : ConnectRequest) (e : PortError)
      → (allocate_bindings parse_ip probe a.alloc req.ports).0 ≡ err e
      → Unchanged a (record a { alloc = (allocate_bindings parse_ip probe a.alloc req.ports).1 })
  refused-Ends a n req e refused = record {
    files = refl;
    attachments = refl;
    ports = allocate_bindings_rollback parse_ip probe a.alloc req.ports e refused;
  }

  prepare_refused :
      (a : Adapter W) (ports : List PortBinding) (e : PortError)
      → (allocate_bindings parse_ip probe a.alloc ports).0 ≡ err e
      → prepare_connect_ports h plugins parse_ip probe a ports [] false ≡ (
        err (port_failed e),
        record a { alloc = (allocate_bindings parse_ip probe a.alloc ports).1 },
      )
  unfolding prepare_connect_ports
  prepare_refused a ports e refused = ground (arith, refused)

  prepare_given :
      (a : Adapter W) (ports fs : List PortBinding) (xs : List PortAllocation)
      → (allocate_bindings parse_ip probe a.alloc ports).0 ≡ ok (fs, xs)
      → prepare_connect_ports h plugins parse_ip probe a ports [] false
        ≡ (ok (fs, xs), record a { alloc = (allocate_bindings parse_ip probe a.alloc ports).1 })
  unfolding prepare_connect_ports
  prepare_given a ports fs xs given = ground (arith, given)

  connect_loaded-Ends :
      (a : Adapter W) (n : Network) (req : ConnectRequest) (loaded : Result Text C)
      → Ends parse_ip probe a req n
          (connect_loaded h plugins parse_ip probe a n req [] false loaded)
  unfolding connect_loaded connect_prepared
  connect_loaded-Ends a n req (err e) = Unchanged-refl a
  connect_loaded-Ends a n req (ok conf) =
      elim (Result-cases (allocate_bindings parse_ip probe a.alloc req.ports).0) [
        | inr (e, refused) ↦
            subst
              (λ s.
                Ends parse_ip probe a req n
                  (connect_prepared h plugins parse_ip probe n req conf false s))
              (sym (prepare_refused a req.ports e refused)) (refused-Ends a n req e refused)
        | inl ((fs, xs), given) ↦
            subst
              (λ s.
                Ends parse_ip probe a req n
                  (connect_prepared h plugins parse_ip probe n req conf false s))
              (sym (prepare_given a req.ports fs xs given))
              (finish_connect-Ends a n req conf fs xs given)
      ]

  pub connect_named-Ends :
      (a : Adapter W) (n : Network) (req : ConnectRequest)
      → Ends parse_ip probe a req n (connect_named h plugins parse_ip probe a n req [] false)
  unfolding connect_named
  connect_named-Ends a n req =
      let P = Ends parse_ip probe a req n in
      if_both P (is_empty n.file) (Unchanged-refl a) (
        if_both P (is_empty (trim_space req.netns)) (Unchanged-refl a)
          (connect_loaded-Ends a n req (plugins.load_conf a.files n.file)))

  Fails-connect_mode :
      (mode : Mode) (a : Adapter W) (n : Network) (req : ConnectRequest)
      → Fails a (connect_mode h plugins parse_ip probe mode a n req [] false)
  Fails-connect_mode host a n req = λ e failed. Unchanged-refl a
  Fails-connect_mode isolated a n req = λ e failed. Unchanged-refl a
  Fails-connect_mode network a n req =
      Ends→Fails parse_ip probe a req n (connect_named h plugins parse_ip probe a n req [] false)
        (connect_named-Ends a n req)

  Fails-connect_resolved :
      (a : Adapter W) (req : ConnectRequest) (found : Result NetworkError Network)
      → Fails a (connect_resolved h plugins parse_ip probe a req [] false found)
  unfolding connect_resolved
  Fails-connect_resolved a req (err e) = λ d failed. Unchanged-refl a
  Fails-connect_resolved a req (ok n) = Fails-connect_mode n.mode a n req

  -- A Connect that fails, for whatever reason, leaves the configuration files, the tracked attachments
  -- and every host port as they were.
  pub connect_fresh_failed :
      (ctx : Option ContextError) (a : Adapter W) (req : ConnectRequest) (e : NetworkError)
      → (connect_fresh h plugins parse_ip probe ctx a req).0 ≡ err e
      → Unchanged a (connect_fresh h plugins parse_ip probe ctx a req).1
  unfolding connect_fresh connect
  connect_fresh_failed (some c) a req = λ e failed. Unchanged-refl a
  connect_fresh_failed none a req =
      if_both (Fails a) (is_empty (trim_space req.container)) (λ e failed. Unchanged-refl a)
        (Fails-connect_resolved a req (resolve h none a.files req.network))

  -- With a live context and a named network, Connect is what it does for the network.
  pub connect_fresh-named :
      (a : Adapter W) (req : ConnectRequest) (n : Network)
      → is_empty (trim_space req.container) ≡ false
      → resolve h none a.files req.network ≡ ok n
      → n.mode ≡ network
      → connect_fresh h plugins parse_ip probe none a req
        ≡ connect_named h plugins parse_ip probe a n req [] false
  unfolding connect_fresh connect connect_resolved
  connect_fresh-named a req n container found mode = rw (container, found, mode) refl
