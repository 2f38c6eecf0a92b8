-- ===== src/Api/Version/Paths.antt =====
-- The version in a path, and the path without it (internal/api/version.go).
use dockerdless.Base.{
  ℕ, ◌≡◌, refl, true, false, none, some, List, [], ◌∷◌, ◌++◌, arith, if◌then◌else◌, ◌↔◌, ◌⊎◌, inl,
  inr, Bool-cases, Option-cases, Result-cases, ok, sym, ap, ◌∙◌, subst, Text, bytes, is_empty,
  strip_prefix, trim_prefix, strip_prefix-append, strip_prefix-eq_some, nat_beq,
}
use dockerdless.Api.Version.{
  all_version_characters, before, parse_api_version, version_from_path, unversioned_path,
}

-- The end of a path, or a slash.
abbrev pub Ends : Text → Type 0
Ends tail = (tail ≡ []) ⊎ ((r : Text) × (tail ≡ b'/' ∷ r))

-- A non-empty run of digits and dots that parses.
abbrev pub IsVersion : Text → Type 0
IsVersion v =
    (is_empty v ≡ false)
    × (all_version_characters v ≡ true)
    × (parts : List ℕ) × (parse_api_version v ≡ ok parts)

before-append :
    (v tail : Text) → all_version_characters v ≡ true → Ends tail → before b'/' (v ++ tail) ≡ v
unfolding before all_version_characters
before-append [] tail h (inl e) = ap (before b'/') e
before-append [] tail h (inr (r, e)) = ap (before b'/') e
before-append (c ∷ v) tail h e =
    let rest = before-append v tail (ground arith) e in ground (arith, rest)

before_rest : (s : Text) → (tail : Text) × (s ≡ before b'/' s ++ tail) × Ends tail
unfolding before
before_rest [] = ([], refl, inl refl)
before_rest (c ∷ s) = elim (Bool-cases (nat_beq c b'/')) [
  | inl e ↦ (c ∷ s, ground arith, inr (s, ground arith))
  | inr e ↦ let (tail, split, ends) = before_rest s in (tail, ground (arith, split), ends)
]

-- What is done with the text up to the next slash.
IsVersion-test :
    (rest : Text)
    → version_from_path (bytes "/v" ++ rest) ≡ ok (some (before b'/' rest))
    → IsVersion (before b'/' rest)
unfolding version_from_path
IsVersion-test rest h = elim (Result-cases (parse_api_version (before b'/' rest))) [
  | inl (parts, e) ↦ (
    ground (arith, strip_prefix-append (bytes "/v") rest),
    ground (arith, strip_prefix-append (bytes "/v") rest),
    parts,
    e,
  )
  | inr (x, e) ↦ absurd (ground (arith, e, strip_prefix-append (bytes "/v") rest))
]

version_named :
    (rest v : Text) → version_from_path (bytes "/v" ++ rest) ≡ ok (some v) → before b'/' rest ≡ v
unfolding version_from_path
version_named rest v h = elim (Result-cases (parse_api_version (before b'/' rest))) [
  | inl (parts, e) ↦ ground (arith, e, strip_prefix-append (bytes "/v") rest)
  | inr (x, e) ↦ ground (arith, e, strip_prefix-append (bytes "/v") rest)
]

version_found :
    (rest : Text)
    → IsVersion (before b'/' rest)
    → version_from_path (bytes "/v" ++ rest) ≡ ok (some (before b'/' rest))
unfolding version_from_path
version_found rest (some_version, characters, parts, e) =
    ground (arith, some_version, characters, e, strip_prefix-append (bytes "/v") rest)

unversioned :
    (path : Text) → strip_prefix (bytes "/v") path ≡ none → version_from_path path ≡ ok none
unfolding version_from_path
unversioned path h = ground (arith, h)

-- A path has a version exactly if it is "/v", the version, and then nothing or a slash, where a
-- version is a non-empty run of digits and dots that parses.
pub version_from_path_iff :
    (path v : Text)
    → (version_from_path path ≡ ok (some v))
      ↔ (IsVersion v × (tail : Text) × (path ≡ bytes "/v" ++ (v ++ tail)) × Ends tail)
version_from_path_iff path v = (to, from)
  where
    to :
        version_from_path path ≡ ok (some v)
        → IsVersion v × (tail : Text) × (path ≡ bytes "/v" ++ (v ++ tail)) × Ends tail
    to h = elim (Option-cases (strip_prefix (bytes "/v") path)) [
      | inl e ↦ absurd (cc (h, unversioned path e))
      | inr (rest, e) ↦
          let whole : path ≡ bytes "/v" ++ rest = strip_prefix-eq_some (bytes "/v") path rest e in
          let found : version_from_path (bytes "/v" ++ rest) ≡ ok (some v) =
            ap version_from_path (sym whole) ∙ h in
          let named = version_named rest v found in
          let (tail, split, ends) = before_rest rest in
          (
            subst IsVersion named (IsVersion-test rest (found ∙ ap (λ x. ok (some x)) (sym named))),
            tail,
            whole ∙ ap (λ s. bytes "/v" ++ s) (split ∙ ap (λ s. s ++ tail) named),
            ends,
          )
    ]

    from :
        IsVersion v × (tail : Text) × (path ≡ bytes "/v" ++ (v ++ tail)) × Ends tail
        → version_from_path path ≡ ok (some v)
    from (version, tail, whole, ends) =
        let named = before-append v tail version.1 ends in
        ap version_from_path whole
        ∙ version_found (v ++ tail) (subst IsVersion (sym named) version)
        ∙ ap (λ x. ok (some x)) named

-- Without its version a path is what stands behind it, or "/" if that is nothing.
pub unversioned_path_lem :
    (v tail : Text)
    → IsVersion v
    → Ends tail
    → unversioned_path (bytes "/v" ++ (v ++ tail)) ≡ (if is_empty tail then bytes "/" else tail)
unfolding unversioned_path trim_prefix
unversioned_path_lem v tail version ends =
    let found =
      (version_from_path_iff (bytes "/v" ++ (v ++ tail)) v).1 (version, tail, refl, ends) in
    ground (arith, found, strip_prefix-append (bytes "/v" ++ v) tail)
