-- ===== src/App/Errors/Canonical.antt =====
-- What translateError of internal/app/errors.go guarantees: every answer has a canonical kind.
use dockerdless.Base.{
  ◌≡◌, refl, true, false, some, Text, arith, Bool-cases, inl, inr, if_both, if◌then◌else◌, is_empty,
  trim_space,
}
use dockerdless.Failures.{
  Sentinel, GoError, sentinel, sentinel_text, is_error, is_any, docker, no_solver, context_canceled,
  context_deadline_exceeded,
}
use dockerdless.App.Errors.{
  new_docker_error, canonical, is_canonical_error, translation, translate_error, absent_sentinels,
  conflict_sentinels, invalid_sentinels, server_sentinels,
}

-- The five kinds of the ports.
abbrev pub IsKind : Sentinel → Type 0
IsKind s = is_any (sentinel s) canonical ≡ true

pub translation-IsKind : (e : GoError) → IsKind (translation e).0
unfolding translation is_error
translation-IsKind e =
    let Has : Sentinel × Text → Type 0 = λ t. IsKind t.0 in
    if_both Has (is_any e absent_sentinels) refl (
      if_both Has (is_any e conflict_sentinels) refl (
        if_both Has (is_any e invalid_sentinels) refl (
          if_both Has (is_error e no_solver) refl (
            if_both Has (is_any e server_sentinels) refl (
              if_both Has (is_error e context_canceled) refl
                (if_both Has (is_error e context_deadline_exceeded) refl refl))))))

-- The message is never blank: the text of the kind stands in for it.
abbrev pub text_or_kind : Sentinel × Text → Text
text_or_kind (kind, message) = if is_empty (trim_space message) then sentinel_text kind else message

pub translate_error_translated :
    (e : GoError)
    → is_canonical_error e ≡ false
    → translate_error (some e) ≡ some (docker (translation e).0 (text_or_kind (translation e)) e)
unfolding translate_error new_docker_error
translate_error_translated e h = ground (arith, h)

docker-IsCanonical :
    (kind : Sentinel) (message : Text) (e : GoError)
    → IsKind kind
    → is_canonical_error (docker kind message e) ≡ true
unfolding is_canonical_error is_error
docker-IsCanonical kind message e h = ground arith

docker_keeps :
    (kind : Sentinel) (message : Text) (e : GoError) (t : Sentinel)
    → is_error e t ≡ true
    → is_error (docker kind message e) t ≡ true
unfolding is_error
docker_keeps kind message e t h = ground (arith, h)

pub canonical_kept : (e : GoError) → is_canonical_error e ≡ true → translate_error (some e) ≡ some e
unfolding translate_error
canonical_kept e h = ground (arith, h)

-- Translating any error gives an error of a canonical kind, which a second translation leaves as it
-- is, and which still is every error that the given one is.
pub translate_error-IsCanonical :
    (e : GoError)
    → (f : GoError) × (translate_error (some e) ≡ some f)
      × (is_canonical_error f ≡ true)
      × (translate_error (some f) ≡ some f)
      × ((t : Sentinel) → is_error e t ≡ true → is_error f t ≡ true)
translate_error-IsCanonical e = elim (Bool-cases (is_canonical_error e)) [
  | inl h ↦ (e, canonical_kept e h, h, canonical_kept e h, λ t k. k)
  | inr h ↦
      let kind = (translation e).0 in
      let text = text_or_kind (translation e) in
      let known = docker-IsCanonical kind text e (translation-IsKind e) in
      (
        docker kind text e,
        translate_error_translated e h,
        known,
        canonical_kept (docker kind text e) known,
        docker_keeps kind text e,
      )
]
