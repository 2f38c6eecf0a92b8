-- ===== src/Streams/Logs/Follow/Growth.antt =====
-- Following one file that grows (ReadLogs of internal/streams/logs.go): many polls write what one
-- read of the grown file writes.
use dockerdless.Base.{
  ℕ, zero, suc, ◌≤◌, ◌<◌, ◌≡◌, refl, true, false, Option, none, some, List, [], ◌∷◌, ◌++◌, Text,
  length, if◌then◌else◌, arith, ap, ap₂, sym, ◌∙◌, subst, append-nil, append_assoc, length-append,
  get_or, Bool-cases, inl, inr, ℤ, pos, negsuc, leb,
}
use dockerdless.Domain.Model.{Time}
use dockerdless.Streams.Io.{Sink}
use dockerdless.Streams.Logs.{LogOptions, Emitted, find_tail_start, emit_log_lines}
use dockerdless.Streams.Logs.Resume.{GoesOn, emit_log_lines_resume}
use dockerdless.Streams.Logs.Tail.{find_tail_start_lem}
use dockerdless.Streams.Logs.Follow.{
  LogReadState, not_started, present, Poll, Polled, track, read_opened, read_logs_once, read_logs,
}

-- A poll of the file with nothing in its way.
abbrev pub quiet : ℕ → List ℕ → Poll
quiet id file = record {
  canceled = false;
  opened = present id file;
  interrupted = false;
  last = present id file;
}

-- The polls of a file that grows by these bytes in between.
abbrev pub polls_of : ℕ → List ℕ → List (List ℕ) → List Poll
polls_of id file [] = quiet id file ∷ []
polls_of id file (g ∷ gs) = quiet id file ∷ polls_of id (file ++ g) gs

abbrev pub all_of : List (List ℕ) → List ℕ
all_of [] = []
all_of (g ∷ gs) = g ++ all_of gs

abbrev pub StillReads : {S : Type 0} → Polled S → Type 0
StillReads p = (p.is_done ≡ false) × (p.failure ≡ none)

past_is_zero : (file : List ℕ) (p : ℕ) → length file ≤ p → get_or file p 0 ≡ 0
past_is_zero [] p h = refl
past_is_zero (c ∷ file) zero h = absurd (omega arith)
past_is_zero (c ∷ file) (suc p) h = past_is_zero file p (omega arith)

find_tail_start_within : (file : List ℕ) (n : ℤ) → find_tail_start file n ≤ length file
find_tail_start_within file (negsuc k) = unfold find_tail_start in omega arith
find_tail_start_within file (pos zero) = unfold find_tail_start in omega arith
find_tail_start_within file (pos (suc n)) = elim (find_tail_start_lem file n).0 [
  | inl (zero_offset, _) ↦ omega (arith, zero_offset)
  | inr (p, at, newline, _) ↦ elim (Bool-cases (leb (length file) p)) [
    | inl h ↦
        let nothing = past_is_zero file p (ground arith) in absurd (omega (arith, newline, nothing))
    | inr h ↦ let here : p < length file = ground arith in omega (arith, at, here)
  ]
]

module _ {S : Type 0} (parse_time : Text → Option Time) (format_time : Time → Text)
    (stdout stderr : Sink S) (opts : LogOptions) (follows : opts.follow ≡ true) where
  abbrev emitted : S → List ℕ → ℕ → Emitted S
  emitted st file offset = emit_log_lines parse_time format_time stdout stderr opts st file offset

  abbrev once : S → LogReadState → Poll → Polled S
  once st s poll = read_logs_once parse_time format_time stdout stderr opts st s poll

  once-GoesOn :
      (st : S) (s : LogReadState) (id : ℕ) (file : List ℕ)
      → let e = emitted st file (track s id file opts).offset in
        GoesOn e
        → once st s (quiet id file) ≡ record {
          outputs = e.state;
          reading = record { started = true; offset = e.offset; last_stat = some id };
          is_done = false;
          failure = none;
        }
  unfolding read_logs_once read_opened track
  once-GoesOn st s id file go = ground (arith, go, follows)

  once_read :
      (st : S) (s : LogReadState) (id : ℕ) (file : List ℕ)
      → StillReads (once st s (quiet id file))
      → GoesOn (emitted st file (track s id file opts).offset)
  unfolding read_logs_once read_opened
  once_read st s id file h = ground (arith, h, follows)

  -- The loop goes on exactly behind a poll that has not ended the read.
  settled :
      (p rest : Polled S)
      → StillReads (elim p.failure [ some x ↦ p | none ↦ if p.is_done then p else rest ])
      → StillReads p
        × (◌≡◌ {A = Polled S}
            (elim p.failure [ some x ↦ p | none ↦ if p.is_done then p else rest ])
            rest)
  settled p rest h = ground (arith, h)

  abbrev loop : S → LogReadState → List Poll → Polled S
  loop st s polls = read_logs parse_time format_time stdout stderr opts st s polls

  loop_step :
      (st : S) (s : LogReadState) (poll : Poll) (polls : List Poll)
      → StillReads (loop st s (poll ∷ polls))
      → StillReads (once st s poll)
        × (loop st s (poll ∷ polls) ≡ loop (once st s poll).outputs (once st s poll).reading polls)
  unfolding read_logs
  loop_step st s poll polls h =
      settled (once st s poll) (loop (once st s poll).outputs (once st s poll).reading polls) h

  abbrev reading_at : ℕ → ℕ → LogReadState
  reading_at id offset = record { started = true; offset = offset; last_stat = some id }

  -- One poll that does not end the read, and the rest of the loop.
  loop-quiet :
      (st : S) (s : LogReadState) (id : ℕ) (file : List ℕ) (polls : List Poll)
      → let e = emitted st file (track s id file opts).offset in
        StillReads (loop st s (quiet id file ∷ polls))
        → GoesOn e
          × (loop st s (quiet id file ∷ polls) ≡ loop e.state (reading_at id e.offset) polls)
  loop-quiet st s id file polls h =
      let (still, same) = loop_step st s (quiet id file) polls h in
      let go = once_read st s id file still in
      (go, same ∙ ap (λ p. loop p.outputs p.reading polls) (once-GoesOn st s id file go))

  tracked_kept :
      (id offset : ℕ) (file : List ℕ)
      → offset ≤ length file
      → (track (reading_at id offset) id file opts).offset ≡ offset
  unfolding track
  tracked_kept id offset file h = ground (arith, h)

  -- The outputs and the offset are those of the read of the whole file.
  abbrev Reads : Polled S → Emitted S → Type 0
  Reads p e = (p.outputs ≡ e.state) × (p.reading.offset ≡ e.offset)

  loop-Reads :
      (gs : List (List ℕ)) (st : S) (s : LogReadState) (id : ℕ) (file : List ℕ)
      → (track s id file opts).offset ≤ length file
      → StillReads (loop st s (polls_of id file gs))
      → Reads
          (loop st s (polls_of id file gs))
          (emitted st (file ++ all_of gs) (track s id file opts).offset)
  loop-Reads [] st s id file inside h =
      let o = (track s id file opts).offset in
      let (go, same) = loop-quiet st s id file [] h in
      subst (λ f. Reads (loop st s (quiet id file ∷ [])) (emitted st f o)) (sym (append-nil file))
        (subst (λ p. Reads p (emitted st file o)) (sym same) (unfold read_logs in (refl, refl)))
  loop-Reads (g ∷ gs) st s id file inside h =
      let o = (track s id file opts).offset in
      let e = emitted st file o in
      let polls = polls_of id (file ++ g) gs in
      let (go, same) = loop-quiet st s id file polls h in
      let (resumed, within) =
        emit_log_lines_resume parse_time format_time stdout stderr opts st file (g ++ all_of gs) o
          follows inside go in
      let longer : e.offset ≤ length (file ++ g) = omega (arith, within, length-append file g) in
      let kept = tracked_kept id e.offset (file ++ g) longer in
      let later =
        loop-Reads gs e.state (reading_at id e.offset) id (file ++ g) (omega (arith, kept, longer))
          (subst StillReads same h) in
      let glued =
        ap₂ (λ f (n : ℕ). emitted e.state f n) (append_assoc file g (all_of gs)) kept ∙ resumed in
      subst (λ p. Reads p (emitted st (file ++ (g ++ all_of gs)) o)) (sym same)
        (subst (Reads (loop e.state (reading_at id e.offset) polls)) glued later)

-- Following a file that only grows: if ReadLogs still reads after any number of undisturbed polls,
-- its outputs and its offset are those of one read of the grown file from the place that
-- FindTailStart chose at the first poll.
pub read_logs_growth :
    {S : Type 0} (parse_time : Text → Option Time) (format_time : Time → Text)
    (stdout stderr : Sink S) (opts : LogOptions) (st : S) (id : ℕ) (file : List ℕ)
    (gs : List (List ℕ))
    → opts.follow ≡ true
    → let p =
        read_logs parse_time format_time stdout stderr opts st not_started (polls_of id file gs) in
      StillReads p
      → let e =
          emit_log_lines parse_time format_time stdout stderr opts st
            (file ++ all_of gs)
            (find_tail_start file opts.tail) in
        (p.outputs ≡ e.state) × (p.reading.offset ≡ e.offset)
unfolding track
read_logs_growth parse_time format_time stdout stderr opts st id file gs follows still =
    loop-Reads parse_time format_time stdout stderr opts follows gs st not_started id file
      (find_tail_start_within file opts.tail) still
