-- ===== src/Streams/Logs/Resume.antt =====
-- Following a log file (internal/streams/logs.go): a poll that comes while a line is being written
-- neither loses nor repeats anything.
use dockerdless.Base.{
  length-append, length-drop, ℕ, ◌+◌, ◌≤◌, ◌≡◌, ◌≢◌, refl, Bool, true, false, Option, none, List,
  [], ◌∷◌, ◌++◌, Text, nat_beq, arith, All, ap, ◌∙◌, sym, subst, length, drop, drop-append_past,
  drop-append_inside, drop-add, append_assoc, Bool-cases, inl, inr,
}
use dockerdless.Domain.Model.{Time}
use dockerdless.Streams.Io.{Sink}
use dockerdless.Streams.Logs.{
  LogOptions, Emitted, lines, is_complete, emit_line, emit_lines, emit_log_lines,
}

abbrev newline : ℕ
newline = b'\n'

abbrev OneLine : List ℕ → Type 0
OneLine s = All (λ c. c ≢ newline) s

-- Whole lines, and what stands behind the last newline.
abbrev join : List (List ℕ) → List ℕ → List ℕ
join [] r = r
join (body ∷ bodies) r = body ++ newline ∷ join bodies r

split_lines :
    (s : List ℕ)
    → (bodies : List (List ℕ)) × (r : List ℕ) × All OneLine bodies × OneLine r × (s ≡ join bodies r)
split_lines [] = ([], [], tt, tt, refl)
split_lines (c ∷ s) =
    let (bodies, r, whole, unfinished, e) = split_lines s in
    elim (Bool-cases (nat_beq c newline)) [
      | inl h ↦ ([] ∷ bodies, r, (tt, whole), unfinished, ground (arith, e))
      | inr h ↦
          let other : c ≢ newline = λ n. ground arith in
          extend c other s bodies r whole unfinished e
    ]
  where
    extend :
        (d : ℕ)
        → d ≢ newline
        → (t : List ℕ) (bs : List (List ℕ)) (q : List ℕ) → All OneLine bs
        → OneLine q
        → t ≡ join bs q
        → (xs : List (List ℕ)) × (p : List ℕ) × All OneLine xs × OneLine p × (d ∷ t ≡ join xs p)
    extend d n t [] q whole unfinished e = ([], d ∷ q, tt, (n, unfinished), ap (◌∷◌ d) e)
    extend d n t (b ∷ bs) q whole unfinished e =
        ((d ∷ b) ∷ bs, q, ((n, whole.0), whole.1), unfinished, ap (◌∷◌ d) e)

lines-body :
    (body rest : List ℕ)
    → OneLine body
    → lines (body ++ newline ∷ rest) ≡ (body ++ newline ∷ []) ∷ lines rest
unfolding lines
lines-body [] rest h = ground arith
lines-body (c ∷ body) rest h = ground (arith, h.0, lines-body body rest h.1)

is_complete-body : (body : List ℕ) → is_complete (body ++ newline ∷ []) ≡ true
unfolding is_complete
is_complete-body [] = ground arith
is_complete-body (c ∷ []) = ground arith
is_complete-body (c ∷ d ∷ body) = is_complete-body (d ∷ body)

lines_unfinished : (c : ℕ) (r : List ℕ) → OneLine (c ∷ r) → lines (c ∷ r) ≡ (c ∷ r) ∷ []
unfolding lines
lines_unfinished c [] h = ground (arith, h.0)
lines_unfinished c (d ∷ r) h = ground (arith, h.0, lines_unfinished d r h.1)

is_complete_unfinished : (c : ℕ) (r : List ℕ) → OneLine (c ∷ r) → is_complete (c ∷ r) ≡ false
unfolding is_complete
is_complete_unfinished c [] h = ground (arith, h.0)
is_complete_unfinished c (d ∷ r) h = is_complete_unfinished d r h.1

-- The read has not ended in this poll.
abbrev pub GoesOn : {S : Type 0} → Emitted S → Type 0
GoesOn e = (e.is_done ≡ false) × (e.failure ≡ none)

module _ {S : Type 0} (parse_time : Text → Option Time) (format_time : Time → Text)
    (stdout stderr : Sink S) (opts : LogOptions) (follows : opts.follow ≡ true) where
  abbrev emit : S → ℕ → List (List ℕ) → Emitted S
  emit st offset ls = emit_lines parse_time format_time stdout stderr opts st offset ls

  abbrev one : S → List ℕ → S × Bool × Option ℕ
  one st line = emit_line parse_time format_time stdout stderr opts st line

  emit_unfinished :
      (st : S) (offset c : ℕ) (r : List ℕ)
      → OneLine (c ∷ r)
      → emit st offset (lines (c ∷ r))
        ≡ record { state = st; offset = offset; is_done = false; failure = none }
  unfolding emit_lines
  emit_unfinished st offset c r h =
      ap (emit st offset) (lines_unfinished c r h)
      ∙ ground (arith, is_complete_unfinished c r h, follows)

  emit_step :
      (st : S) (offset : ℕ) (line : List ℕ) (more others : List (List ℕ))
      → is_complete line ≡ true
      → GoesOn (emit st offset (line ∷ more))
      → emit st offset (line ∷ others) ≡ emit (one st line).0 (offset + length line) others
  unfolding emit_lines
  emit_step st offset line more others h go = ground (arith, h, go)

  -- Reading on behind `e`, which read the text t, reads of t and b what is read in one go.
  abbrev Resumed : Emitted S → S → ℕ → List ℕ → List ℕ → List ℕ → Type 0
  Resumed e st offset t r b =
      (k : ℕ) × (e.offset ≡ offset + k)
      × (k ≤ length t)
      × (drop k (t ++ b) ≡ r ++ b)
      × (emit st offset (lines (t ++ b)) ≡ emit e.state e.offset (lines (r ++ b)))

  emit-Resumed :
      (bodies : List (List ℕ)) (r b : List ℕ) (st : S) (offset : ℕ)
      → All OneLine bodies
      → OneLine r
      → GoesOn (emit st offset (lines (join bodies r)))
      → Resumed (emit st offset (lines (join bodies r))) st offset (join bodies r) r b
  emit-Resumed [] [] b st offset whole h go =
      unfold emit_lines lines in (0, omega arith, omega arith, refl, refl)
  emit-Resumed [] (c ∷ r) b st offset whole h go =
      subst (λ e. Resumed e st offset (c ∷ r) (c ∷ r) b) (sym (emit_unfinished st offset c r h))
        (0, omega arith, omega arith, refl, refl)
  emit-Resumed (body ∷ bodies) r b st offset whole h go =
      let line = body ++ newline ∷ [] in
      let rest = join bodies r in
      let complete = is_complete-body body in
      let first = ap (emit st offset) (lines-body body rest whole.0) in
      let going = subst GoesOn first go in
      let step = emit_step st offset line (lines rest) (lines rest) complete going in
      let (k, at, within, left, same) =
        emit-Resumed bodies r b (one st line).0 (offset + length line) whole.1 h
          (subst GoesOn step going) in
      let glued : (body ++ newline ∷ rest) ++ b ≡ line ++ (rest ++ b) =
        append_assoc body (newline ∷ rest) b ∙ sym (append_assoc body (newline ∷ []) (rest ++ b)) in
      subst (λ e. Resumed e st offset (body ++ newline ∷ rest) r b) (sym (first ∙ step))
        (
          length line + k,
          omega (arith, at),
          omega (
            arith,
            within,
            length-append body (newline ∷ []),
            length-append body (newline ∷ rest),
          ),
          ap (drop (length line + k)) glued ∙ drop-append_past line (rest ++ b) k ∙ left,
          ap (λ t. emit st offset (lines t)) (append_assoc body (newline ∷ rest) b)
              ∙ ap (emit st offset) (lines-body body (rest ++ b) whole.0)
              ∙ emit_step st offset line (lines rest) (lines (rest ++ b)) complete going
              ∙ same,
        )

-- Following a log: if emitLogLines has read a file from an offset inside it and the read goes on,
-- then reading on from the offset it returned, once the file has grown by any bytes, ends exactly
-- as reading the grown file from the first offset in one go: with the same outputs, offset and
-- error. This holds wherever the first read found the end of the file, inside a line too; and the
-- offset returned is inside the file that was read.
pub emit_log_lines_resume :
    {S : Type 0} (parse_time : Text → Option Time) (format_time : Time → Text)
    (stdout stderr : Sink S) (opts : LogOptions) (st : S) (file grown : List ℕ) (offset : ℕ)
    → opts.follow ≡ true
    → offset ≤ length file
    → let e = emit_log_lines parse_time format_time stdout stderr opts st file offset in
      GoesOn e
      → (emit_log_lines parse_time format_time stdout stderr opts e.state (file ++ grown) e.offset
          ≡ emit_log_lines parse_time format_time stdout stderr opts st (file ++ grown) offset)
        × (e.offset ≤ length file)
unfolding emit_log_lines
emit_log_lines_resume parse_time format_time stdout stderr opts st file grown offset follows inside
      go =
    let t = drop offset file in
    let read = emit_lines parse_time format_time stdout stderr opts st offset in
    let (bodies, r, whole, unfinished, split) = split_lines t in
    let (k, at, within, left, same) =
      subst
        (λ text.
          GoesOn (read (lines text))
          → Resumed parse_time format_time stdout stderr opts follows (read (lines text)) st offset
              text r grown)
        (sym split)
        (emit-Resumed parse_time format_time stdout stderr opts follows bodies r grown st offset
          whole unfinished)
        go in
    let e = read (lines t) in
    let inner = drop-append_inside offset file grown inside in
    let behind : drop e.offset (file ++ grown) ≡ r ++ grown =
      ap (λ n. drop n (file ++ grown)) at
      ∙ drop-add offset k (file ++ grown)
      ∙ ap (drop k) inner
      ∙ left in
    (
      ap
            (λ text.
              emit_lines parse_time format_time stdout stderr opts e.state e.offset (lines text))
            behind
          ∙ sym same
          ∙ ap (λ text. read (lines text)) (sym inner),
      omega (arith, at, within, length-drop offset file),
    )
