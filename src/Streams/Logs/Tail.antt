-- ===== src/Streams/Logs/Tail.antt =====
-- FindTailStart of internal/streams/logs.go: the block-wise scan from the end of the file finds the
-- place behind which the wanted number of complete lines stands.
use dockerdless.Base.{
  ℕ, zero, suc, ◌+◌, ◌-◌, ◌≤◌, ◌<◌, ◌≡◌, refl, true, false, List, [], ◌∷◌, nat_beq, arith,
  if◌then◌else◌, ap, ◌∙◌, sym, subst, length, take, drop, get_or, min, Bool-cases, inl, inr, ◌⊎◌,
  pos, negsuc,
}
use dockerdless.Streams.Logs.{
  Scan, found_at, seen_so_far, scan_back, tail_loop, find_tail_start, tail_read_block_size,
}

-- How many newlines there are.
abbrev pub newlines : List ℕ → ℕ
newlines [] = 0
newlines (c ∷ s) = if nat_beq c b'\n' then suc (newlines s) else newlines s

get_or-take : (r i : ℕ) (s : List ℕ) → i < r → get_or (take r s) i 0 ≡ get_or s i 0
get_or-take zero i s h = absurd (omega arith)
get_or-take (suc r) i [] h = refl
get_or-take (suc r) zero (c ∷ s) h = refl
get_or-take (suc r) (suc i) (c ∷ s) h = get_or-take r i s (omega arith)

get_or-drop : (n i : ℕ) (s : List ℕ) → get_or (drop n s) i 0 ≡ get_or s (n + i) 0
get_or-drop zero i s = let e : i ≡ 0 + i = omega arith in ap (λ j. get_or s j 0) e
get_or-drop (suc n) i [] = refl
get_or-drop (suc n) i (c ∷ s) =
    let e : suc (n + i) ≡ suc n + i = omega arith in
    get_or-drop n i s ∙ ap (λ j. get_or (c ∷ s) j 0) e

newlines-drop :
    (i : ℕ) (s : List ℕ)
    → i < length s
    → newlines (drop i s) ≡ (
        if nat_beq (get_or s i 0) b'\n'
        then suc (newlines (drop (suc i) s))
        else newlines (drop (suc i) s))
newlines-drop zero [] h = absurd (omega arith)
newlines-drop zero (c ∷ s) h = refl
newlines-drop (suc i) [] h = absurd (omega arith)
newlines-drop (suc i) (c ∷ s) h = newlines-drop i s (omega arith)

scan_back_skipped :
    (i wanted seen : ℕ) (chunk : List ℕ)
    → nat_beq (get_or chunk i 0) b'\n' ≡ false
    → scan_back (suc i) chunk wanted seen ≡ scan_back i chunk wanted seen
unfolding scan_back
scan_back_skipped i wanted seen chunk h = ground (arith, h)

scan_back_found :
    (i wanted seen : ℕ) (chunk : List ℕ)
    → nat_beq (get_or chunk i 0) b'\n' ≡ true
    → suc seen ≡ wanted
    → scan_back (suc i) chunk wanted seen ≡ found_at i
unfolding scan_back
scan_back_found i wanted seen chunk h k = ground (arith, h, k)

scan_back_counted :
    (i wanted seen : ℕ) (chunk : List ℕ)
    → nat_beq (get_or chunk i 0) b'\n' ≡ true
    → suc seen < wanted
    → scan_back (suc i) chunk wanted seen ≡ scan_back i chunk wanted (suc seen)
unfolding scan_back
scan_back_counted i wanted seen chunk h k = ground (arith, h, k)

module _ (file : List ℕ) (wanted : ℕ) where
  -- What the scan of the chunk that begins at `start` has found out.
  abbrev Scanned : ℕ → Scan → Type 0
  Scanned start (found_at i) =
      (get_or file (start + i) 0 ≡ b'\n') × (suc (newlines (drop (suc (start + i)) file)) ≡ wanted)
  Scanned start (seen_so_far seen) = (newlines (drop start file) ≡ seen) × (seen < wanted)

  scan_back-Scanned :
      (i start seen : ℕ) (chunk : List ℕ)
      → ((j : ℕ) → j < i → get_or chunk j 0 ≡ get_or file (start + j) 0)
      → start + i ≤ length file
      → newlines (drop (start + i) file) ≡ seen
      → seen < wanted
      → Scanned start (scan_back i chunk wanted seen)
  scan_back-Scanned zero start seen chunk same inside count below =
      let e : start + 0 ≡ start = omega arith in
      unfold scan_back in (ap (λ n. newlines (drop n file)) (sym e) ∙ count, below)
  scan_back-Scanned (suc i) start seen chunk same inside count below =
      let here = same i (omega arith) in
      let e : start + suc i ≡ suc (start + i) = omega arith in
      let next = newlines-drop (start + i) file (omega (arith, inside)) in
      let rest : newlines (drop (suc (start + i)) file) ≡ seen =
        ap (λ n. newlines (drop n file)) (sym e) ∙ count in
      let same' : (j : ℕ) → j < i → get_or chunk j 0 ≡ get_or file (start + j) 0 =
        λ j h. same j (omega (arith, h)) in
      elim (Bool-cases (nat_beq (get_or chunk i 0) b'\n')) [
        | inr h ↦ subst (Scanned start) (sym (scan_back_skipped i wanted seen chunk h)) (
            scan_back-Scanned i start seen chunk same' (omega (arith, inside))
              (ground (arith, next, here, rest)) below)
        | inl h ↦ elim (Bool-cases (nat_beq (suc seen) wanted)) [
          | inl k ↦
              subst (Scanned start) (sym (scan_back_found i wanted seen chunk h (ground arith)))
                (ground (arith, here), ground (arith, rest))
          | inr k ↦
              let more : suc seen < wanted = ground arith in
              subst (Scanned start) (sym (scan_back_counted i wanted seen chunk h more)) (
                scan_back-Scanned i start (suc seen) chunk same' (omega (arith, inside))
                  (ground (arith, next, here, rest)) more)
        ]
      ]

  -- Either the file has too few lines, or a newline stands in front of the place that is found.
  abbrev IsTail : ℕ → Type 0
  IsTail offset =
      ((offset ≡ 0) × (newlines file < wanted))
      ⊎ ((p : ℕ) × (offset ≡ suc p)
          × (get_or file p 0 ≡ b'\n')
          × (suc (newlines (drop offset file)) ≡ wanted))

  Scanned-IsTail :
      (fuel start : ℕ) (found : Scan)
      → Scanned start found
      → ((more : ℕ)
          → newlines (drop start file) ≡ more
          → more < wanted
          → IsTail (tail_loop fuel file wanted more start))
      → IsTail (elim found [
        | found_at i ↦ start + i + 1
        | seen_so_far more ↦ tail_loop fuel file wanted more start
      ])
  Scanned-IsTail fuel start (found_at i) (at, behind) again =
      let e : start + i + 1 ≡ suc (start + i) = omega arith in
      inr (start + i, e, at, ap (λ m. suc (newlines (drop m file))) e ∙ behind)
  Scanned-IsTail fuel start (seen_so_far more) (count, below) again = again more count below

  tail_loop_block :
      (fuel seen n : ℕ)
      → let r = min tail_read_block_size (suc n) in
        let start = suc n - r in
        Scanned start (scan_back r (take r (drop start file)) wanted seen)
        → ((more : ℕ)
            → newlines (drop start file) ≡ more
            → more < wanted
            → IsTail (tail_loop fuel file wanted more start))
        → IsTail (tail_loop (suc fuel) file wanted seen (suc n))
  unfolding tail_loop
  tail_loop_block fuel seen n scanned again =
      let r = min tail_read_block_size (suc n) in
      let start = suc n - r in
      Scanned-IsTail fuel start (scan_back r (take r (drop start file)) wanted seen) scanned again

  tail_loop-IsTail :
      (fuel seen offset : ℕ)
      → offset ≤ fuel
      → offset ≤ length file
      → newlines (drop offset file) ≡ seen
      → seen < wanted
      → IsTail (tail_loop fuel file wanted seen offset)
  tail_loop-IsTail zero seen zero enough inside count below =
      unfold tail_loop in inl (refl, omega (arith, count))
  tail_loop-IsTail zero seen (suc n) enough inside count below = absurd (omega arith)
  tail_loop-IsTail (suc fuel) seen zero enough inside count below =
      unfold tail_loop in inl (refl, omega (arith, count))
  tail_loop-IsTail (suc fuel) seen (suc n) enough inside count below =
      let r = min tail_read_block_size (suc n) in
      let start = suc n - r in
      let chunk = take r (drop start file) in
      let e : start + r ≡ suc n = omega arith in
      let same : (j : ℕ) → j < r → get_or chunk j 0 ≡ get_or file (start + j) 0 =
        λ j h. get_or-take r j (drop start file) h ∙ get_or-drop start j file in
      let scanned =
        scan_back-Scanned r start seen chunk same (omega (arith, inside))
          (ap (λ m. newlines (drop m file)) e ∙ count) below in
      tail_loop_block fuel seen n scanned
        (λ more. tail_loop-IsTail fuel more start (omega (arith, enough)) (omega (arith, inside)))

newlines_end : (s : List ℕ) → newlines (drop (length s) s) ≡ 0
newlines_end [] = refl
newlines_end (c ∷ s) = newlines_end s

-- FindTailStart for n > 0 lines: the offset is 0 if the file has at most n newlines; else the byte in
-- front of it is a newline, and exactly n newlines stand behind it. For n <= 0 it is 0.
pub find_tail_start_lem :
    (file : List ℕ) (n : ℕ)
    → (((find_tail_start file (pos (suc n)) ≡ 0) × (newlines file ≤ suc n))
        ⊎ ((p : ℕ) × (find_tail_start file (pos (suc n)) ≡ suc p)
            × (get_or file p 0 ≡ b'\n')
            × (newlines (drop (suc p) file) ≡ suc n)))
      × (find_tail_start file (pos 0) ≡ 0)
      × ((k : ℕ) → find_tail_start file (negsuc k) ≡ 0)
unfolding find_tail_start
find_tail_start_lem file n = (
  elim (tail_loop-IsTail file (suc n + 1) (length file) 0 (length file) (omega arith) (omega arith)
      (newlines_end file) (omega arith)) [
        | inl (zero_offset, few) ↦ inl (zero_offset, omega (arith, few))
        | inr (p, at, newline, behind) ↦
            inr (p, at, newline, omega (arith, ap (λ m. newlines (drop m file)) (sym at), behind))
      ],
  refl,
  λ k. refl,
)
