-- ===== src/App/Errors/Tests.antt =====
-- Runs of internal/app/errors.go on a few errors.
use dockerdless.Base.{◌≡◌, refl, true, some, bytes, trim_space, trim_prefix, strip_prefix}
use dockerdless.Failures.{
  Sentinel, GoError, wrap, sentinel, docker, is_error, network_in_use, conflict, error_text,
}
use dockerdless.App.Errors.{
  translate_error, translation, new_docker_error, is_canonical_error, clean_adapter_message,
  trim_prefixes,
}
use dockerdless.App.Errors.Canonical.{translate_error-IsCanonical}

abbrev busy : GoError
busy = wrap (bytes "network n: network has active endpoints") (sentinel network_in_use)

translate_error-IsCanonical_example :
    (f : GoError) × (translate_error (some busy) ≡ some f)
    × (is_canonical_error f ≡ true)
    × (translate_error (some f) ≡ some f)
    × ((t : Sentinel) → is_error busy t ≡ true → is_error f t ≡ true)
translate_error-IsCanonical_example = translate_error-IsCanonical busy

busy_conflicts :
    translate_error (some busy)
    ≡ some (docker conflict (bytes "network n: network has active endpoints") busy)
unfolding translate_error translation new_docker_error is_canonical_error clean_adapter_message
    trim_prefixes trim_prefix strip_prefix trim_space is_error error_text
busy_conflicts = refl
