-- ===== src/Api/Version/Tests.antt =====
-- Runs of internal/api/version.go on a few paths.
use dockerdless.Base.{
  ◌≡◌, refl, none, some, [], ◌∷◌, ◌++◌, ◌↔◌, inr, ok, err, Text, bytes, strip_prefix, ℕ, pos,
  negsuc,
}
use dockerdless.Api.Version.{
  less, same, more, compare_parts, compare_from, parse_api_version, version_from_path, negotiate,
  new_version_middleware, all_version_characters, before, parse_components, parse_component, split,
  atoi, unsigned, digits_value, too_old, invalid_version, empty_component, minimum_api_version,
  compare_api_versions,
}
use dockerdless.Api.Version.Order.{Before, part, compare_parts_lem}
use dockerdless.Api.Version.Paths.{Ends, IsVersion, version_from_path_iff}
use dockerdless.Api.Version.Gate.{negotiate_iff}

abbrev version : Text
version = bytes "1.43"

version-parsed : parse_api_version version ≡ ok (1 ∷ 43 ∷ [])
unfolding parse_api_version parse_components parse_component split atoi unsigned digits_value
version-parsed = refl

version-IsVersion : IsVersion version
unfolding all_version_characters
version-IsVersion = (refl, refl, 1 ∷ 43 ∷ [], version-parsed)

abbrev tail : Text
tail = bytes "/info"

tail-Ends : Ends tail
tail-Ends = inr (bytes "info", refl)

compare_parts_lem_example :
    ((compare_parts (1 ∷ []) (1 ∷ 0 ∷ 3 ∷ []) ≡ less) ↔ Before (1 ∷ []) (1 ∷ 0 ∷ 3 ∷ []))
    × ((compare_parts (1 ∷ []) (1 ∷ 0 ∷ 3 ∷ []) ≡ same)
        ↔ ((i : ℕ) → part (1 ∷ []) i ≡ part (1 ∷ 0 ∷ 3 ∷ []) i))
    × ((compare_parts (1 ∷ []) (1 ∷ 0 ∷ 3 ∷ []) ≡ more) ↔ Before (1 ∷ 0 ∷ 3 ∷ []) (1 ∷ []))
compare_parts_lem_example = compare_parts_lem (1 ∷ []) (1 ∷ 0 ∷ 3 ∷ [])

version_from_path_iff_example : (version_from_path (bytes "/v1.43/info") ≡ ok (some version)) ↔ (
    IsVersion version × (t : Text) × (bytes "/v1.43/info" ≡ bytes "/v" ++ (version ++ t)) × Ends t)
version_from_path_iff_example = version_from_path_iff (bytes "/v1.43/info") version

negotiate_iff_example :
    (negotiate new_version_middleware (bytes "/v1.43/info") ≡ ok tt)
    ↔ (¬ (Before (1 ∷ 43 ∷ []) (1 ∷ 24 ∷ [])) × ¬ (Before (1 ∷ 44 ∷ []) (1 ∷ 43 ∷ [])))
negotiate_iff_example =
    negotiate_iff version tail (1 ∷ 43 ∷ []) version-IsVersion version-parsed tail-Ends

old_refused :
    negotiate new_version_middleware (bytes "/v1.9/info")
    ≡ err (too_old (bytes "1.9") minimum_api_version)
unfolding negotiate version_from_path strip_prefix before all_version_characters parse_api_version
    parse_components parse_component split atoi unsigned digits_value compare_api_versions
    compare_parts compare_from
old_refused = refl

dots_refused :
    version_from_path (bytes "/v1..2/info") ≡ err (invalid_version (bytes "1..2") empty_component)
unfolding version_from_path strip_prefix before all_version_characters parse_api_version
    parse_components parse_component split atoi unsigned digits_value
dots_refused = refl

-- A word that begins with v is no version.
volumes_unversioned : version_from_path (bytes "/volumes") ≡ ok none
unfolding version_from_path strip_prefix before all_version_characters
volumes_unversioned = refl

atoi_limits :
    (atoi (bytes "9223372036854775807") ≡ some (pos 9223372036854775807))
    × (atoi (bytes "9223372036854775808") ≡ none)
    × (atoi (bytes "-9223372036854775808") ≡ some (negsuc 9223372036854775807))
    × (atoi (bytes "+") ≡ none)
unfolding atoi unsigned digits_value
atoi_limits = (refl, refl, refl, refl)
