-- ===== src/Base/Trim.antt =====
-- strings.TrimSpace over bytes: the encodings of the white space runes are cut at both ends.
use mathlib.Core.List.{reverse, reverse-append, reverse-reverse}
use mathlib.Core.List.{append_assoc}
use Prim.Native.Nat.{ℕ, zero, suc, ◌≤◌, ◌<◌}
use mathlib.Core.Path.{◌≡◌, refl, sym, ap, ◌∙◌}
use mathlib.Core.Logic.{inl, inr}
use mathlib.Core.List.{List, [], ◌∷◌, ◌++◌, map}
use mathlib.Core.Option.{Option, none, some}
use native.Mathlib.Omega.{arith}
use dockerdless.Base.Tests.{Option-cases}
use dockerdless.Base.Lists.{length, length-append, length-reverse, All}
use dockerdless.Base.Strings.{Text, strip_prefix, strip_prefix-append, strip_prefix-eq_some}

-- The UTF-8 encodings of the runes for which unicode.IsSpace holds.
abbrev pub white_space : List Text
white_space =
    (0x09 ∷ [])
    ∷ (0x0a ∷ [])
    ∷ (0x0b ∷ [])
    ∷ (0x0c ∷ [])
    ∷ (0x0d ∷ [])
    ∷ (0x20 ∷ [])
    ∷ (0xc2 ∷ 0x85 ∷ [])
    ∷ (0xc2 ∷ 0xa0 ∷ [])
    ∷ (0xe1 ∷ 0x9a ∷ 0x80 ∷ [])
    ∷ (0xe2 ∷ 0x80 ∷ 0x80 ∷ [])
    ∷ (0xe2 ∷ 0x80 ∷ 0x81 ∷ [])
    ∷ (0xe2 ∷ 0x80 ∷ 0x82 ∷ [])
    ∷ (0xe2 ∷ 0x80 ∷ 0x83 ∷ [])
    ∷ (0xe2 ∷ 0x80 ∷ 0x84 ∷ [])
    ∷ (0xe2 ∷ 0x80 ∷ 0x85 ∷ [])
    ∷ (0xe2 ∷ 0x80 ∷ 0x86 ∷ [])
    ∷ (0xe2 ∷ 0x80 ∷ 0x87 ∷ [])
    ∷ (0xe2 ∷ 0x80 ∷ 0x88 ∷ [])
    ∷ (0xe2 ∷ 0x80 ∷ 0x89 ∷ [])
    ∷ (0xe2 ∷ 0x80 ∷ 0x8a ∷ [])
    ∷ (0xe2 ∷ 0x80 ∷ 0xa8 ∷ [])
    ∷ (0xe2 ∷ 0x80 ∷ 0xa9 ∷ [])
    ∷ (0xe2 ∷ 0x80 ∷ 0xaf ∷ [])
    ∷ (0xe2 ∷ 0x81 ∷ 0x9f ∷ [])
    ∷ (0xe3 ∷ 0x80 ∷ 0x80 ∷ [])
    ∷ []

-- The rest behind the first of the words that the text begins with.
strip_any : List Text → Text → Option Text
strip_any [] s = none
strip_any (w ∷ ws) s = elim (strip_prefix w s) [ none ↦ strip_any ws s | some r ↦ some r ]

trim_words : ℕ → List Text → Text → Text
trim_words zero ws s = s
trim_words (suc f) ws s = elim (strip_any ws s) [ none ↦ s | some r ↦ trim_words f ws r ]

trim_start : Text → Text
unfolding trim_words strip_any strip_prefix
trim_start s = trim_words (length s) white_space s

trim_end : Text → Text
unfolding trim_words strip_any strip_prefix
trim_end s = reverse (trim_words (length s) (map reverse white_space) (reverse s))

unfoldable pub trim_space : Text → Text
unfolding trim_start trim_end
trim_space s = trim_end (trim_start s)

abbrev NonEmpty : Text → Type 0
NonEmpty w = 0 < length w

strip_prefix-shorter : (w s r : Text) → NonEmpty w → strip_prefix w s ≡ some r → length r < length s
strip_prefix-shorter [] s r n h = absurd (omega arith)
strip_prefix-shorter (c ∷ w) s r n h =
    omega (arith, ap length (strip_prefix-eq_some (c ∷ w) s r h), length-append (c ∷ w) r)

strip_any-shorter :
    (ws : List Text) (s r : Text) → All NonEmpty ws → strip_any ws s ≡ some r → length r < length s
unfolding strip_any
strip_any-shorter [] s r n h = cc
strip_any-shorter (w ∷ ws) s r n h = elim (Option-cases (strip_prefix w s)) [
  | inl e ↦ strip_any-shorter ws s r n.1 (ground arith)
  | inr (q, e) ↦ strip_prefix-shorter w s r n.0 (ground arith)
]

strip_any-nil : (ws : List Text) → All NonEmpty ws → strip_any ws [] ≡ none
strip_any-nil ws n = elim (Option-cases (strip_any ws [])) [
  | inl e ↦ e
  | inr (r, e) ↦ absurd (omega (arith, strip_any-shorter ws [] r n e))
]

-- With enough fuel no word is left at the front.
strip_any-trim_words :
    (f : ℕ) (ws : List Text) (s : Text)
    → All NonEmpty ws
    → length s ≤ f
    → strip_any ws (trim_words f ws s) ≡ none
unfolding trim_words
strip_any-trim_words zero ws [] n h = strip_any-nil ws n
strip_any-trim_words zero ws (c ∷ s) n h = absurd (omega arith)
strip_any-trim_words (suc f) ws s n h = elim (Option-cases (strip_any ws s)) [
  | inl e ↦ rw (e, trim_words) e
  | inr (r, e) ↦
      rw (e, trim_words)
        (strip_any-trim_words f ws r n (omega (arith, strip_any-shorter ws s r n e)))
]

trim_words_done :
    (f : ℕ) (ws : List Text) (s : Text) → strip_any ws s ≡ none → trim_words f ws s ≡ s
unfolding trim_words
trim_words_done zero ws s h = refl
trim_words_done (suc f) ws s h = rw (h, trim_words)

strip_any-eq_some :
    (ws : List Text) (s r : Text) → strip_any ws s ≡ some r → (p : Text) × (s ≡ p ++ r)
unfolding strip_any
strip_any-eq_some [] s r h = cc
strip_any-eq_some (w ∷ ws) s r h = elim (Option-cases (strip_prefix w s)) [
  | inl e ↦ strip_any-eq_some ws s r (ground arith)
  | inr (q, e) ↦ (w, strip_prefix-eq_some w s r (ground arith))
]

trim_words_suffix : (f : ℕ) (ws : List Text) (s : Text) → (p : Text) × (s ≡ p ++ trim_words f ws s)
unfolding trim_words
trim_words_suffix zero ws s = ([], refl)
trim_words_suffix (suc f) ws s = elim (Option-cases (strip_any ws s)) [
  | inl e ↦ ([], rw (e, trim_words) refl)
  | inr (r, e) ↦
      let (p, h) = strip_any-eq_some ws s r e in
      let (q, k) = trim_words_suffix f ws r in
      (p ++ q, rw (e, trim_words) (h ∙ ap (◌++◌ p) k ∙ sym (append_assoc p q _)))
]

-- A text that begins with no word still begins with none when it is cut at its end.
strip_prefix-append_none : (w p q : Text) → strip_prefix w (p ++ q) ≡ none → strip_prefix w p ≡ none
strip_prefix-append_none w p q h = elim (Option-cases (strip_prefix w p)) [
  | inl e ↦ e
  | inr (r, e) ↦ cc (
    h,
    ap (λ t. strip_prefix w (t ++ q)) (strip_prefix-eq_some w p r e),
    ap (strip_prefix w) (append_assoc w r q),
    strip_prefix-append w (r ++ q),
  )
]

strip_any-append_none :
    (ws : List Text) (p q : Text) → strip_any ws (p ++ q) ≡ none → strip_any ws p ≡ none
unfolding strip_any
strip_any-append_none [] p q h = refl
strip_any-append_none (w ∷ ws) p q h = elim (Option-cases (strip_prefix w (p ++ q))) [
  | inl e ↦
      rw (strip_prefix-append_none w p q e, strip_any) (strip_any-append_none ws p q (ground arith))
  | inr (r, e) ↦ absurd (ground arith)
]

trim_end_prefix : (s : Text) → (q : Text) × (s ≡ trim_end s ++ q)
unfolding trim_end
trim_end_prefix s =
    let (p, h) = trim_words_suffix (length s) (map reverse white_space) (reverse s) in
    (
      reverse p,
      sym (reverse-reverse s)
          ∙ ap reverse h
          ∙ reverse-append p (trim_words (length s) (map reverse white_space) (reverse s)),
    )

strip_any-reverse-trim_end :
    (s : Text) → strip_any (map reverse white_space) (reverse (trim_end s)) ≡ none
unfolding trim_end
strip_any-reverse-trim_end s =
    rw (reverse-reverse (trim_words (length s) (map reverse white_space) (reverse s))) (
      strip_any-trim_words (length s) (map reverse white_space) (reverse s) (omega arith)
        (omega (arith, length-reverse s)))

trim_end_idem : (s : Text) → trim_end (trim_end s) ≡ trim_end s
unfolding trim_end
trim_end_idem s =
    ap reverse (
      trim_words_done (length (trim_end s)) (map reverse white_space) (reverse (trim_end s))
        (strip_any-reverse-trim_end s))
    ∙ reverse-reverse (trim_end s)

-- Trimming a trimmed text changes nothing.
pub trim_space_idem : (s : Text) → trim_space (trim_space s) ≡ trim_space s
unfolding trim_space
trim_space_idem s =
    let a = trim_start s in
    let (q, h) = trim_end_prefix a in
    ap trim_end (
      trim_words_done (length (trim_end a)) white_space (trim_end a) (
        strip_any-append_none white_space (trim_end a) q (
          ap (strip_any white_space) (sym h)
          ∙ strip_any-trim_words (length s) white_space s (omega arith) (omega arith))))
    ∙ trim_end_idem a
