-- ===== src/Api/Errors/Tests.antt =====
-- Runs of the error chain on a few errors.
use dockerdless.Base.{◌≡◌, refl, true, false, some, bytes, trim_space, trim_prefix, strip_prefix}
use dockerdless.Failures.{
  Sentinel, GoError, plain, is_error, error_text, sentinel_text, docker_message,
}
use dockerdless.App.Errors.{
  translate_error, translation, new_docker_error, is_canonical_error, clean_adapter_message,
  trim_prefixes,
}
use dockerdless.Runtime.Errors.{
  Errdefs, absent, already_exists, conflicting, failed_precondition, invalid, out_of_range,
  unavailable, internal, unknown, aborted, data_loss, map_error, under,
}
use dockerdless.Runtime.Errors.Mapped.{OnlyClass}
use dockerdless.Api.Errors.{
  map_service_error, service_message, clean_service_message, new_not_found, envelope,
  kind_not_found,
}
use dockerdless.Api.Errors.Answers.{class_answered}

-- The predicates of errdefs for an error that says it is missing.
abbrev missing_errdefs : Errdefs
missing_errdefs absent e = true
missing_errdefs already_exists e = false
missing_errdefs conflicting e = false
missing_errdefs failed_precondition e = false
missing_errdefs invalid e = false
missing_errdefs out_of_range e = false
missing_errdefs unavailable e = false
missing_errdefs internal e = false
missing_errdefs unknown e = false
missing_errdefs aborted e = false
missing_errdefs data_loss e = false

abbrev missing : GoError
missing = plain (bytes "container a: not found")

missing_class : OnlyClass missing_errdefs missing absent
missing_class absent = refl
missing_class already_exists = refl
missing_class conflicting = refl
missing_class failed_precondition = refl
missing_class invalid = refl
missing_class out_of_range = refl
missing_class unavailable = refl
missing_class internal = refl
missing_class unknown = refl
missing_class aborted = refl
missing_class data_loss = refl

missing_bare : (t : Sentinel) → is_error missing t ≡ false
unfolding is_error
missing_bare t = refl

class_answered_example :
    (f : GoError) × (translate_error (map_error missing_errdefs (some missing)) ≡ some f)
    × ((map_service_error (some f)).status ≡ 404)
class_answered_example = class_answered missing_errdefs missing absent missing_bare missing_class

-- The prefix of the adapter is stripped once, the canonical kind is kept in the chain.
missing_message :
    map_service_error (translate_error (map_error missing_errdefs (some missing)))
    ≡ record { status = 404; kind = kind_not_found; message = bytes "container a: not found" }
unfolding map_service_error translate_error map_error under translation new_docker_error
    is_canonical_error clean_adapter_message trim_prefixes trim_prefix strip_prefix trim_space
    service_message clean_service_message new_not_found envelope is_error docker_message error_text
    sentinel_text
missing_message = refl
