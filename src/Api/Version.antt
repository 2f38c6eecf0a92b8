-- ===== src/Api/Version.antt =====
-- internal/api/version.go: negotiation of the API version that stands in the path of a request.
pub mod Order
pub mod Paths
pub mod Gate
mod Tests
use dockerdless.Base.{
  ℕ, zero, suc, ◌+◌, ◌-◌, ◌*◌, ◌^◌, Bool, true, false, not, ◌&&◌, ◌||◌, Option, none, some, List,
  [], ◌∷◌, ◌++◌, Text, bytes, is_empty, strip_prefix, trim_prefix, ltb, leb, nat_beq, length,
  get_or, if◌then◌else◌, Result, ok, err, ◌>>=◌, ◌>>◌, refuse_if, ℤ, pos, negsuc,
}

pub data VersionError : Type 0 where
  empty_component : VersionError
  bad_component : Text → VersionError
  invalid_version : Text → VersionError → VersionError
  too_old too_new : Text → Text → VersionError

abbrev pub advertised_api_version : Text
advertised_api_version = bytes "1.44"

abbrev pub minimum_api_version : Text
minimum_api_version = bytes "1.24"

abbrev pub advertised_builder_version : Text
advertised_builder_version = bytes "2"

pub record VersionMiddleware : Type 0 where
  pub advertised_version : Text
  pub minimum_version : Text
  pub builder_version : Text

abbrev pub new_version_middleware : VersionMiddleware
new_version_middleware = record {
  advertised_version = advertised_api_version;
  minimum_version = minimum_api_version;
  builder_version = advertised_builder_version;
}

abbrev pub is_digit : ℕ → Bool
is_digit c = leb b'0' c && leb c b'9'

unfoldable pub all_version_characters : Text → Bool
all_version_characters [] = true
all_version_characters (c ∷ version) =
    (is_digit c || nat_beq c b'.') && all_version_characters version

-- The value of a non-empty run of digits, behind what stands to its left.
unfoldable pub digits_value : ℕ → Text → Option ℕ
digits_value value [] = some value
digits_value value (c ∷ s) =
    let rest = digits_value (value * 10 + (c - b'0')) s in if is_digit c then rest else none

unfoldable pub unsigned : Text → Option ℕ
unfolding digits_value
unsigned [] = none
unsigned (c ∷ s) = digits_value 0 (c ∷ s)

-- strconv.Atoi where int has 64 bits: a sign, digits, and a value in range.
unfoldable pub atoi : Text → Option ℤ
unfolding unsigned
atoi [] = none
atoi (c ∷ s) =
    if nat_beq c b'-'
    then elim (unsigned s) [
      | none ↦ none
      | some zero ↦ some (pos 0)
      | some (suc n) ↦ if ltb n (2 ^ 63) then some (negsuc n) else none
    ]
    else elim (unsigned (if nat_beq c b'+' then s else c ∷ s)) [
      | none ↦ none
      | some n ↦ if ltb n (2 ^ 63) then some (pos n) else none
    ]

-- strings.Split: the parts between the separators, at least one.
unfoldable pub split : ℕ → Text → List Text
split c [] = [] ∷ []
split c (d ∷ s) =
    let rest = split c s in
    if nat_beq d c
    then [] ∷ rest
    else elim rest [ [] ↦ (d ∷ []) ∷ [] | part ∷ parts ↦ (d ∷ part) ∷ parts ]

unfoldable pub parse_component : Text → Result VersionError ℕ
unfolding atoi
parse_component part = do
  refuse_if (is_empty part) empty_component
  elim (atoi part) [
    | none ↦ err (bad_component part)
    | some (negsuc n) ↦ err (bad_component part)
    | some (pos n) ↦ ok n
  ]

unfoldable pub parse_components : List Text → Result VersionError (List ℕ)
unfolding parse_component
parse_components [] = ok []
parse_components (part ∷ parts) = do
  value ← parse_component part
  values ← parse_components parts
  ok (value ∷ values)

unfoldable pub parse_api_version : Text → Result VersionError (List ℕ)
unfolding parse_components split
parse_api_version version = parse_components (split b'.' version)

-- -1, 0 and 1.
pub data Comparison : Type 0 where
  less same more : Comparison

-- The loop over n indexes from `index` on; a part that is missing counts as 0.
unfoldable pub compare_from : ℕ → ℕ → List ℕ → List ℕ → Comparison
compare_from zero index left right = same
compare_from (suc n) index left right =
    let rest = compare_from n (suc index) left right in
    if ltb (get_or left index 0) (get_or right index 0)
    then less
    else if ltb (get_or right index 0) (get_or left index 0)
    then more
    else rest

unfoldable pub compare_parts : List ℕ → List ℕ → Comparison
unfolding compare_from
compare_parts left right =
    compare_from (if ltb (length left) (length right) then length right else length left) 0 left
      right

unfoldable pub compare_api_versions : Text → Text → Result VersionError Comparison
unfolding compare_parts parse_api_version
compare_api_versions left right = do
  left_parts ← parse_api_version left
  right_parts ← parse_api_version right
  ok (compare_parts left_parts right_parts)

-- `rest[:strings.IndexByte(rest, c)]`, or all of it.
unfoldable pub before : ℕ → Text → Text
before c [] = []
before c (d ∷ s) = if nat_beq d c then [] else d ∷ before c s

-- `none` is a path without a version.
unfoldable pub version_from_path : Text → Result VersionError (Option Text)
unfolding before all_version_characters parse_api_version
version_from_path path = elim (strip_prefix (bytes "/v") path) [
  | none ↦ ok none
  | some rest ↦
      let version = before b'/' rest in
      if is_empty version || not (all_version_characters version)
      then ok none
      else elim (parse_api_version version) [
        | err e ↦ err (invalid_version version e)
        | ok parts ↦ ok (some version)
      ]
]

unfoldable pub unversioned_path : Text → Text
unfolding version_from_path
unversioned_path path = elim (version_from_path path) [
  | err e ↦ path
  | ok none ↦ path
  | ok (some version) ↦
      let rest = trim_prefix (bytes "/v" ++ version) path in
      if is_empty rest then bytes "/" else rest
]

abbrev pub is_less : Comparison → Bool
is_less less = true
is_less same = false
is_less more = false

abbrev pub is_more : Comparison → Bool
is_more less = false
is_more same = false
is_more more = true

-- Wrap up to the call of the next handler; each error is answered with an invalid parameter.
unfoldable pub negotiate : VersionMiddleware → Text → Result VersionError (Unit {0})
unfolding version_from_path compare_api_versions
negotiate m path = version_from_path path >>= λ found. elim found [
  | none ↦ ok tt
  | some version ↦ do
    oldest ← compare_api_versions version m.minimum_version
    refuse_if (is_less oldest) (too_old version m.minimum_version)
    newest ← compare_api_versions version m.advertised_version
    refuse_if (is_more newest) (too_new version m.advertised_version)
]
