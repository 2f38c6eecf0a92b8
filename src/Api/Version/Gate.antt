-- ===== src/Api/Version/Gate.antt =====
-- Which requests pass the version middleware of internal/api/version.go.
use dockerdless.Base.{ℕ, ◌≡◌, refl, false, some, List, [], ◌∷◌, ◌++◌, arith, ◌↔◌, ok, Text, bytes}
use dockerdless.Api.Version.{
  new_version_middleware, Comparison, less, same, more, is_less, is_more, compare_parts,
  compare_api_versions, parse_api_version, version_from_path, negotiate, minimum_api_version,
  advertised_api_version, parse_components, parse_component, split, atoi, unsigned, digits_value,
}
use dockerdless.Api.Version.Order.{Before, compare_parts_lem}
use dockerdless.Api.Version.Paths.{Ends, IsVersion, version_from_path_iff}

minimum_parts : parse_api_version minimum_api_version ≡ ok (1 ∷ 24 ∷ [])
unfolding parse_api_version parse_components parse_component split atoi unsigned digits_value
minimum_parts = refl

advertised_parts : parse_api_version advertised_api_version ≡ ok (1 ∷ 44 ∷ [])
unfolding parse_api_version parse_components parse_component split atoi unsigned digits_value
advertised_parts = refl

compare_parsed :
    (v w : Text) (ps qs : List ℕ)
    → parse_api_version v ≡ ok ps
    → parse_api_version w ≡ ok qs
    → compare_api_versions v w ≡ ok (compare_parts ps qs)
unfolding compare_api_versions
compare_parsed v w ps qs h k = ground (arith, h, k)

negotiate_versioned :
    (path v : Text) (ps : List ℕ)
    → version_from_path path ≡ ok (some v)
    → parse_api_version v ≡ ok ps
    → (negotiate new_version_middleware path ≡ ok tt) ↔ (
        (is_less (compare_parts ps (1 ∷ 24 ∷ [])) ≡ false)
        × (is_more (compare_parts ps (1 ∷ 44 ∷ [])) ≡ false))
unfolding negotiate
negotiate_versioned path v ps h k =
    let low = compare_parsed v minimum_api_version ps (1 ∷ 24 ∷ []) k minimum_parts in
    let high = compare_parsed v advertised_api_version ps (1 ∷ 44 ∷ []) k advertised_parts in
    (
      λ e. (ground (arith, h, low, high), ground (arith, h, low, high)),
      λ e. ground (arith, h, low, high),
    )

is_less_iff : (r : Comparison) → (is_less r ≡ false) ↔ ¬ (r ≡ less)
is_less_iff less = (λ h. absurd cc, λ n. absurd (n refl))
is_less_iff same = (λ _ e. cc, λ _. refl)
is_less_iff more = (λ _ e. cc, λ _. refl)

is_more_iff : (r : Comparison) → (is_more r ≡ false) ↔ ¬ (r ≡ more)
is_more_iff less = (λ _ e. cc, λ _. refl)
is_more_iff same = (λ _ e. cc, λ _. refl)
is_more_iff more = (λ h. absurd cc, λ n. absurd (n refl))

-- A path with a version passes the default middleware exactly if the version is not before 1.24
-- and 1.44 is not before it.
pub negotiate_iff :
    (v tail : Text) (parts : List ℕ)
    → IsVersion v
    → parse_api_version v ≡ ok parts
    → Ends tail
    → (negotiate new_version_middleware (bytes "/v" ++ (v ++ tail)) ≡ ok tt)
      ↔ (¬ (Before parts (1 ∷ 24 ∷ [])) × ¬ (Before (1 ∷ 44 ∷ []) parts))
negotiate_iff v tail parts version parsed ends =
    let path = bytes "/v" ++ (v ++ tail) in
    let found = (version_from_path_iff path v).1 (version, tail, refl, ends) in
    let (into, out) = negotiate_versioned path v parts found parsed in
    let ((less_before, before_less), _, _) = compare_parts_lem parts (1 ∷ 24 ∷ []) in
    let (_, _, (more_before, before_more)) = compare_parts_lem parts (1 ∷ 44 ∷ []) in
    let low = is_less_iff (compare_parts parts (1 ∷ 24 ∷ [])) in
    let high = is_more_iff (compare_parts parts (1 ∷ 44 ∷ [])) in
    (
      λ h. let (a, b) = into h in (λ x. low.0 a (before_less x), λ x. high.0 b (before_more x)),
      λ n. out (low.1 (λ e. n.0 (less_before e)), high.1 (λ e. n.1 (more_before e))),
    )
