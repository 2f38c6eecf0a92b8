-- ===== src/Runtime/Errors/Mapped.antt =====
-- What mapError and StatusCode of internal/adapters/containerd/errors.go make of an error.
use dockerdless.Base.{
  ℕ, ◌≡◌, refl, true, false, ◌||◌, Option, some, nat_beq, arith, inl, inr, ◌⊎◌, if_both,
}
use dockerdless.Failures.{
  Sentinel, GoError, is_error, is_any, sentinel, runtime_not_found, runtime_conflict,
  runtime_invalid_argument, runtime_server_error,
}
use dockerdless.Runtime.Errors.{
  Errdefs, ErrdefsClass, absent, already_exists, conflicting, failed_precondition, invalid,
  out_of_range, unavailable, internal, unknown, aborted, data_loss, runtime_sentinels, under,
  map_error, status_code,
}

-- The status that a class of containerd errors stands for in Docker's API.
abbrev pub class_status : ErrdefsClass → ℕ
class_status absent = 404
class_status already_exists = 409
class_status conflicting = 409
class_status failed_precondition = 409
class_status invalid = 400
class_status out_of_range = 400
class_status unavailable = 500
class_status internal = 500
class_status unknown = 500
class_status aborted = 500
class_status data_loss = 500

abbrev class_code : ErrdefsClass → ℕ
class_code absent = 0
class_code already_exists = 1
class_code conflicting = 2
class_code failed_precondition = 3
class_code invalid = 4
class_code out_of_range = 5
class_code unavailable = 6
class_code internal = 7
class_code unknown = 8
class_code aborted = 9
class_code data_loss = 10

-- The error is of this class and of no other.
abbrev pub OnlyClass : Errdefs → GoError → ErrdefsClass → Type 0
OnlyClass errdefs e c = (d : ErrdefsClass) → errdefs d e ≡ nat_beq (class_code d) (class_code c)

-- An error that carries no sentinel of the adapter yet and is of one errdefs class is answered,
-- after mapError, with the status of that class.
pub status_code-map_error :
    (errdefs : Errdefs) (e : GoError) (c : ErrdefsClass)
    → is_any e runtime_sentinels ≡ false
    → OnlyClass errdefs e c
    → status_code (map_error errdefs (some e)) ≡ class_status c
unfolding status_code map_error under is_error
status_code-map_error errdefs e absent h k = ground (arith, h, k absent)
status_code-map_error errdefs e already_exists h k = ground (
  arith,
  h,
  k absent,
  k already_exists,
  k conflicting,
  k failed_precondition,
  k invalid,
  k out_of_range,
  k unavailable,
  k internal,
  k unknown,
  k aborted,
  k data_loss,
)
status_code-map_error errdefs e conflicting h k = ground (
  arith,
  h,
  k absent,
  k already_exists,
  k conflicting,
  k failed_precondition,
  k invalid,
  k out_of_range,
  k unavailable,
  k internal,
  k unknown,
  k aborted,
  k data_loss,
)
status_code-map_error errdefs e failed_precondition h k = ground (
  arith,
  h,
  k absent,
  k already_exists,
  k conflicting,
  k failed_precondition,
  k invalid,
  k out_of_range,
  k unavailable,
  k internal,
  k unknown,
  k aborted,
  k data_loss,
)
status_code-map_error errdefs e invalid h k = ground (
  arith,
  h,
  k absent,
  k already_exists,
  k conflicting,
  k failed_precondition,
  k invalid,
  k out_of_range,
  k unavailable,
  k internal,
  k unknown,
  k aborted,
  k data_loss,
)
status_code-map_error errdefs e out_of_range h k = ground (
  arith,
  h,
  k absent,
  k already_exists,
  k conflicting,
  k failed_precondition,
  k invalid,
  k out_of_range,
  k unavailable,
  k internal,
  k unknown,
  k aborted,
  k data_loss,
)
status_code-map_error errdefs e unavailable h k = ground (
  arith,
  h,
  k absent,
  k already_exists,
  k conflicting,
  k failed_precondition,
  k invalid,
  k out_of_range,
  k unavailable,
  k internal,
  k unknown,
  k aborted,
  k data_loss,
)
status_code-map_error errdefs e internal h k = ground (
  arith,
  h,
  k absent,
  k already_exists,
  k conflicting,
  k failed_precondition,
  k invalid,
  k out_of_range,
  k unavailable,
  k internal,
  k unknown,
  k aborted,
  k data_loss,
)
status_code-map_error errdefs e unknown h k = ground (
  arith,
  h,
  k absent,
  k already_exists,
  k conflicting,
  k failed_precondition,
  k invalid,
  k out_of_range,
  k unavailable,
  k internal,
  k unknown,
  k aborted,
  k data_loss,
)
status_code-map_error errdefs e aborted h k = ground (
  arith,
  h,
  k absent,
  k already_exists,
  k conflicting,
  k failed_precondition,
  k invalid,
  k out_of_range,
  k unavailable,
  k internal,
  k unknown,
  k aborted,
  k data_loss,
)
status_code-map_error errdefs e data_loss h k = ground (
  arith,
  h,
  k absent,
  k already_exists,
  k conflicting,
  k failed_precondition,
  k invalid,
  k out_of_range,
  k unavailable,
  k internal,
  k unknown,
  k aborted,
  k data_loss,
)

-- mapError keeps an error, or puts a sentinel of the adapter above it.
abbrev pub Answer : GoError → Option GoError → Type 0
Answer e r =
    (r ≡ some e)
    ⊎ ((s : Sentinel) × (is_any (sentinel s) runtime_sentinels ≡ true) × (r ≡ some (under s e)))

pub map_error-Answer : (errdefs : Errdefs) (e : GoError) → Answer e (map_error errdefs (some e))
unfolding map_error is_error
map_error-Answer errdefs e = if_both (Answer e) (is_any e runtime_sentinels) (inl refl) (
    if_both (Answer e) (errdefs absent e) (inr (runtime_not_found, refl, refl)) (
      if_both (Answer e)
        (errdefs already_exists e || (errdefs conflicting e || errdefs failed_precondition e))
        (inr (runtime_conflict, refl, refl))
        (if_both (Answer e) (errdefs invalid e || errdefs out_of_range e)
          (inr (runtime_invalid_argument, refl, refl))
          (if_both (Answer e)
            (errdefs unavailable e
              || (errdefs internal e
                  || (errdefs unknown e || (errdefs aborted e || errdefs data_loss e))))
            (inr (runtime_server_error, refl, refl)) (inl refl)))))

under_kept :
    (errdefs : Errdefs) (s : Sentinel) (e : GoError)
    → is_any (sentinel s) runtime_sentinels ≡ true
    → map_error errdefs (some (under s e)) ≡ some (under s e)
unfolding map_error under is_error
under_kept errdefs s e h = ground arith

under_is : (s t : Sentinel) (e : GoError) → is_error e t ≡ true → is_error (under s e) t ≡ true
unfolding under is_error
under_is s t e h = ground (arith, h)

-- Mapping an error a second time changes nothing, and the mapped error still is every error that
-- the given one is.
pub map_error_idem :
    (errdefs : Errdefs) (e : GoError)
    → (f : GoError) × (map_error errdefs (some e) ≡ some f)
      × (map_error errdefs (some f) ≡ some f)
      × ((t : Sentinel) → is_error e t ≡ true → is_error f t ≡ true)
map_error_idem errdefs e = elim (map_error-Answer errdefs e) [
  | inl h ↦ (e, h, h, λ t k. k)
  | inr (s, k, h) ↦ (under s e, h, under_kept errdefs s e k, λ t. under_is s t e)
]
