-- ===== src/Api/Errors/Answers.antt =====
-- One error through the daemon: the containerd adapter, internal/app/errors.go and
-- internal/api/errors.go agree on its status.
use dockerdless.Base.{
  ℕ, ◌≡◌, refl, Bool, true, false, some, Text, bytes, nat_beq, arith, inl, inr, if◌then◌else◌, ap,
  sym, ◌∙◌,
}
use dockerdless.Failures.{
  Sentinel, GoError, sentinel, docker, identity, error_text, is_error, is_any, not_found, conflict,
  invalid_argument, not_implemented, server_failure, runtime_not_found, runtime_conflict,
  runtime_invalid_argument, runtime_server_error, image_not_found, invalid_reference,
  invalid_context, no_solver, invalid_auth, network_not_found, network_exists, network_in_use,
  invalid_network_name, reserved_network_name, unsupported_network_driver, unknown_network_mode,
  port_publish_with_mode, missing_netns, missing_container, ipv6_unsupported, port_in_use,
  unallocated_port, unsupported_protocol, container_not_found, container_name_conflict,
  empty_identity, empty_container_name, context_canceled, context_deadline_exceeded,
}
use dockerdless.App.Errors.{
  translation, translate_error, is_canonical_error, absent_sentinels, conflict_sentinels,
  invalid_sentinels, server_sentinels, clean_adapter_message,
}
use dockerdless.App.Errors.Canonical.{text_or_kind, translate_error_translated}
use dockerdless.Runtime.Errors.{
  Errdefs, ErrdefsClass, runtime_sentinels, under, map_error, status_code,
}
use dockerdless.Runtime.Errors.Mapped.{
  OnlyClass, class_status, map_error-Answer, status_code-map_error,
}
use dockerdless.Api.Errors.{
  map_service_error, new_not_found, new_conflict, new_invalid_parameter, new_not_implemented,
  new_server_error, envelope,
}

-- The error carries no sentinel but those of the containerd adapter.
abbrev pub IsRuntimeError : GoError → Type 0
IsRuntimeError e =
    (t : Sentinel) → is_any (sentinel t) runtime_sentinels ≡ false → is_error e t ≡ false

-- The status that the API has for a kind.
abbrev sentinel_status : Sentinel → ℕ
sentinel_status kind =
    if nat_beq (identity kind) (identity not_found)
    then 404
    else if nat_beq (identity kind) (identity conflict)
    then 409
    else if nat_beq (identity kind) (identity invalid_argument)
    then 400
    else if nat_beq (identity kind) (identity not_implemented)
    then 501
    else 500

map_service_error-docker :
    (kind : Sentinel) (message : Text) (e : GoError)
    → is_canonical_error e ≡ false
    → (map_service_error (some (docker kind message e))).status ≡ sentinel_status kind
unfolding map_service_error new_not_found new_conflict new_invalid_parameter new_not_implemented
    new_server_error envelope is_error is_canonical_error
map_service_error-docker kind message e h = ground (arith, h)

-- The kind that the first test that holds decides.
abbrev kind_of : Bool → Bool → Bool → Bool → Sentinel
kind_of absent_test conflict_test invalid_test solver_test =
    if absent_test
    then not_found
    else if conflict_test
    then conflict
    else if invalid_test
    then invalid_argument
    else if solver_test
    then not_implemented
    else server_failure

chosen :
    (a b c d s x y : Bool) (m p q r t : Text)
    → let r : Sentinel × Text =
        if a
        then (not_found, m)
        else if b
        then (conflict, m)
        else if c
        then (invalid_argument, m)
        else if d
        then (not_implemented, p)
        else if s
        then (server_failure, q)
        else if x
        then (server_failure, r)
        else if y
        then (server_failure, t)
        else (server_failure, p) in
      r.0 ≡ kind_of a b c d
chosen true b c d s x y m p q r t = refl
chosen false true c d s x y m p q r t = refl
chosen false false true d s x y m p q r t = refl
chosen false false false true s x y m p q r t = refl
chosen false false false false true x y m p q r t = refl
chosen false false false false false true y m p q r t = refl
chosen false false false false false false true m p q r t = refl
chosen false false false false false false false m p q r t = refl

translation_kind :
    (e : GoError)
    → (translation e).0
      ≡ kind_of
          (is_any e absent_sentinels)
          (is_any e conflict_sentinels)
          (is_any e invalid_sentinels)
          (is_error e no_solver)
unfolding translation
translation_kind e =
    chosen (is_any e absent_sentinels) (is_any e conflict_sentinels) (is_any e invalid_sentinels)
      (is_error e no_solver) (is_any e server_sentinels) (is_error e context_canceled)
      (is_error e context_deadline_exceeded) (clean_adapter_message e) (error_text e)
      (clean_adapter_message e) (bytes "request canceled") (bytes "request timed out")

module _ (e : GoError) (h : IsRuntimeError e) where
  runtime_not_canonical : is_canonical_error e ≡ false
  unfolding is_canonical_error is_error
  runtime_not_canonical = ground (
    arith,
    h not_found refl,
    h conflict refl,
    h invalid_argument refl,
    h not_implemented refl,
    h server_failure refl,
  )

  absent_only : is_any e absent_sentinels ≡ is_error e runtime_not_found
  unfolding is_error
  absent_only =
      ground (arith, h image_not_found refl, h network_not_found refl, h container_not_found refl)

  conflict_only : is_any e conflict_sentinels ≡ is_error e runtime_conflict
  unfolding is_error
  conflict_only = ground (
    arith,
    h container_name_conflict refl,
    h network_exists refl,
    h network_in_use refl,
    h reserved_network_name refl,
    h port_in_use refl,
  )

  invalid_only : is_any e invalid_sentinels ≡ is_error e runtime_invalid_argument
  unfolding is_error
  invalid_only = ground (
    arith,
    h empty_identity refl,
    h empty_container_name refl,
    h invalid_reference refl,
    h invalid_context refl,
    h invalid_auth refl,
    h invalid_network_name refl,
    h unsupported_network_driver refl,
    h unknown_network_mode refl,
    h port_publish_with_mode refl,
    h missing_netns refl,
    h missing_container refl,
    h ipv6_unsupported refl,
    h unallocated_port refl,
    h unsupported_protocol refl,
  )

  no_solver_missing : is_error e no_solver ≡ false
  unfolding is_error
  no_solver_missing = h no_solver refl

  runtime_kind :
      (translation e).0
      ≡ kind_of
          (is_error e runtime_not_found)
          (is_error e runtime_conflict)
          (is_error e runtime_invalid_argument)
          false
  runtime_kind =
      translation_kind e
      ∙ ap
          (λ a.
            kind_of a (is_any e conflict_sentinels) (is_any e invalid_sentinels)
              (is_error e no_solver))
          absent_only
      ∙ ap
          (λ b.
            kind_of (is_error e runtime_not_found) b (is_any e invalid_sentinels)
              (is_error e no_solver))
          conflict_only
      ∙ ap
          (λ c.
            kind_of (is_error e runtime_not_found) (is_error e runtime_conflict) c
              (is_error e no_solver))
          invalid_only
      ∙ ap
          (kind_of (is_error e runtime_not_found) (is_error e runtime_conflict)
            (is_error e runtime_invalid_argument))
          no_solver_missing

  runtime_status :
      sentinel_status (
        kind_of
          (is_error e runtime_not_found)
          (is_error e runtime_conflict)
          (is_error e runtime_invalid_argument)
          false)
      ≡ status_code (some e)
  unfolding status_code
  runtime_status = ground arith

-- The service's error envelope has the status that the containerd adapter itself has for an error
-- that carries no sentinel of another part.
pub runtime_status_agrees :
    (e : GoError)
    → IsRuntimeError e
    → (f : GoError) × (translate_error (some e) ≡ some f)
      × ((map_service_error (some f)).status ≡ status_code (some e))
runtime_status_agrees e h =
    let kind = (translation e).0 in
    let text = text_or_kind (translation e) in
    let foreign = runtime_not_canonical e h in
    (
      docker kind text e,
      translate_error_translated e foreign,
      map_service_error-docker kind text e foreign
          ∙ ap sentinel_status (runtime_kind e h)
          ∙ runtime_status e h,
    )

runtime_apart :
    (s t : Sentinel)
    → is_any (sentinel s) runtime_sentinels ≡ true
    → is_any (sentinel t) runtime_sentinels ≡ false
    → is_error (sentinel s) t ≡ false
unfolding is_error
runtime_apart s t h k = ground arith

under-IsRuntimeError :
    (s : Sentinel) (e : GoError)
    → is_any (sentinel s) runtime_sentinels ≡ true
    → ((t : Sentinel) → is_error e t ≡ false)
    → IsRuntimeError (under s e)
unfolding is_error under
under-IsRuntimeError s e h none_of t k = ground (arith, runtime_apart s t h k, none_of t)

-- From containerd to the client: an error of containerd that carries no sentinel and is of one
-- errdefs class is answered, behind mapError, translateError and mapServiceError, with the status
-- of its class: 404 if absent, 409 if it exists, conflicts or lacks a precondition, 400 if it is
-- invalid or out of range, and else 500.
pub class_answered :
    (errdefs : Errdefs) (e : GoError) (c : ErrdefsClass)
    → ((t : Sentinel) → is_error e t ≡ false)
    → OnlyClass errdefs e c
    → (f : GoError) × (translate_error (map_error errdefs (some e)) ≡ some f)
      × ((map_service_error (some f)).status ≡ class_status c)
class_answered errdefs e c none_of only =
    let bare : is_any e runtime_sentinels ≡ false = ground (
      arith,
      none_of runtime_not_found,
      none_of runtime_conflict,
      none_of runtime_invalid_argument,
      none_of runtime_server_error,
    ) in
    let status = status_code-map_error errdefs e c bare only in
    elim (map_error-Answer errdefs e) [
      | inl h ↦
          let (f, sent, same) = runtime_status_agrees e (λ t _. none_of t) in
          (f, ap translate_error h ∙ sent, same ∙ ap status_code (sym h) ∙ status)
      | inr (s, k, h) ↦
          let (f, sent, same) =
            runtime_status_agrees (under s e) (under-IsRuntimeError s e k none_of) in
          (f, ap translate_error h ∙ sent, same ∙ ap status_code (sym h) ∙ status)
    ]
