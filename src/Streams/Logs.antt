-- ===== src/Streams/Logs.antt =====
-- internal/streams/logs.go: container log files are decoded line by line and sent to the two outputs.
-- time.Parse and Time.Format with the layout RFC3339Nano are parameters; a file is its bytes.
pub mod Entry
pub mod Tail
pub mod Resume
pub mod Follow
mod Tests
use dockerdless.Base.{
  ℕ, zero, suc, ◌+◌, ◌-◌, min, Bool, true, false, not, ◌&&◌, ◌||◌, Option, none, some, List, [],
  ◌∷◌, ◌++◌, Text, bytes, text_beq, nat_beq, length, take, drop, get_or, if◌then◌else◌, Result, ok,
  err, ◌>>=◌, ◌>>◌, or_fail, refuse_if, ◌==◌, text_eq, ℤ, pos, negsuc, int_ltb, int_beq,
}
use dockerdless.Domain.Model.{Time, is_zero}
use dockerdless.Streams.Io.{Sink}

pub data LogFormat : Type 0 where
  format_auto format_cri format_raw : LogFormat

pub data LogStream : Type 0 where
  log_stdout log_stderr : LogStream

abbrev pub tail_read_block_size : ℕ
tail_read_block_size = 32768

pub record LogOptions : Type 0 where
  pub follow : Bool
  pub tail : ℤ
  pub since : Time
  pub until : Time
  pub timestamps : Bool
  pub format : LogFormat

pub record LogEntry : Type 0 where
  pub timestamp : Time
  pub stream : LogStream
  pub is_partial : Bool
  pub content : List ℕ

pub data LogError : Type 0 where
  missing_timestamp missing_stream missing_tag : LogError
  bad_timestamp unexpected_stream : Text → LogError

-- bytes.Cut at one byte; `none` is that it does not occur.
unfoldable pub cut : ℕ → Text → Option (Text × Text)
cut c [] = none
cut c (d ∷ s) =
    let rest = cut c s in
    if nat_beq d c
    then some ([], s)
    else elim rest [ none ↦ none | some (token, behind) ↦ some (d ∷ token, behind) ]

unfoldable pub cut_token : Text → Option (Text × Text)
unfolding cut
cut_token line = cut b' ' line

unfoldable pub log_stream : Text → Result LogError LogStream
log_stream name =
    if name == bytes "stdout"
    then ok log_stdout
    else if name == bytes "stderr"
    then ok log_stderr
    else err (unexpected_stream name)

-- strings.SplitN(tag, ":", 2)[0] == "P"
unfoldable pub is_partial_tag : Text → Bool
unfolding cut
is_partial_tag tag = elim (cut b':' tag) [
  | none ↦ tag == bytes "P"
  | some (first, rest) ↦ first == bytes "P"
]

unfoldable pub parse_cri_entry : (Text → Option Time) → Text → Result LogError LogEntry
unfolding cut_token log_stream is_partial_tag
parse_cri_entry parse_time line = do
  (timestamp, behind) ← or_fail (cut_token line) missing_timestamp
  ts ← or_fail (parse_time timestamp) (bad_timestamp timestamp)
  (name, after_name) ← or_fail (cut_token behind) missing_stream
  stream ← log_stream name
  (tag, content) ← or_fail (cut_token after_name) missing_tag
  ok (record {
    timestamp = ts;
    stream = stream;
    is_partial = is_partial_tag tag;
    content = content;
  })

abbrev pub raw_entry : Text → LogEntry
raw_entry line = record {
  timestamp = pos 0;
  stream = log_stdout;
  is_partial = false;
  content = line;
}

unfoldable pub decode_log_line : (Text → Option Time) → Text → LogFormat → Option LogEntry
decode_log_line parse_time line format_raw = some (raw_entry line)
decode_log_line parse_time line format_cri = elim (parse_cri_entry parse_time line) [
  | ok entry ↦ some entry
  | err e ↦ none
]
decode_log_line parse_time line format_auto = elim (parse_cri_entry parse_time line) [
  | ok entry ↦ some entry
  | err e ↦ some (raw_entry line)
]

unfoldable pub entry_too_old : LogEntry → LogOptions → Bool
entry_too_old entry opts =
    not (is_zero opts.since)
    && (not (is_zero entry.timestamp) && int_ltb entry.timestamp opts.since)

unfoldable pub entry_out_of_range : LogEntry → LogOptions → Bool
entry_out_of_range entry opts =
    not (is_zero opts.until)
    && (not (is_zero entry.timestamp) && int_ltb opts.until entry.timestamp)

-- FindTailStart. The scan of one chunk from index i down: the index found, or the count so far.
pub data Scan : Type 0 where
  found_at : ℕ → Scan
  seen_so_far : ℕ → Scan

unfoldable pub scan_back : ℕ → List ℕ → ℕ → ℕ → Scan
scan_back zero chunk wanted seen = seen_so_far seen
scan_back (suc i) chunk wanted seen =
    let skipped = scan_back i chunk wanted seen in
    let counted = scan_back i chunk wanted (suc seen) in
    if nat_beq (get_or chunk i 0) b'\n'
    then (if nat_beq (suc seen) wanted then found_at i else counted)
    else skipped

-- The loop over the blocks; every block has a byte, so `offset` is enough fuel.
unfoldable pub tail_loop : ℕ → List ℕ → ℕ → ℕ → ℕ → ℕ
unfolding scan_back
tail_loop zero file wanted seen offset = 0
tail_loop (suc fuel) file wanted seen zero = 0
tail_loop (suc fuel) file wanted seen (suc n) =
    let read_len = min tail_read_block_size (suc n) in
    let start = suc n - read_len in
    elim (scan_back read_len (take read_len (drop start file)) wanted seen) [
      | found_at i ↦ start + i + 1
      | seen_so_far more ↦ tail_loop fuel file wanted more start
    ]

unfoldable pub find_tail_start : List ℕ → ℤ → ℕ
unfolding tail_loop
find_tail_start file (negsuc k) = 0
find_tail_start file (pos zero) = 0
find_tail_start file (pos (suc k)) = tail_loop (length file) file (suc k + 1) 0 (length file)

-- What ReadBytes('\n') gives, one call after the other: each line has its newline, but for a last
-- line that the file ends in.
unfoldable pub lines : List ℕ → List (List ℕ)
lines [] = []
lines (c ∷ s) =
    let rest = lines s in
    if nat_beq c b'\n'
    then (c ∷ []) ∷ rest
    else elim rest [ [] ↦ (c ∷ []) ∷ [] | line ∷ more ↦ (c ∷ line) ∷ more ]

unfoldable pub is_complete : List ℕ → Bool
is_complete [] = false
is_complete (c ∷ []) = nat_beq c b'\n'
is_complete (c ∷ d ∷ s) = is_complete (d ∷ s)

-- How emitLogLines returns: the state of the outputs, the offset, whether the read is done, and the
-- writer's error.
pub record Emitted (S : Type 0) : Type 0 where
  pub state : S
  pub offset : ℕ
  pub is_done : Bool
  pub failure : Option ℕ

module _ {S : Type 0} (parse_time : Text → Option Time) (format_time : Time → Text)
    (stdout stderr : Sink S) (opts : LogOptions) where
  -- A writer's count is not looked at.
  unfoldable pub write_log_entry : S → LogEntry → S × Option ℕ
  write_log_entry st entry =
      let dst : Sink S = elim entry.stream [ log_stdout ↦ stdout | log_stderr ↦ stderr ] in
      let (st', n, e) =
        if opts.timestamps && not (is_zero entry.timestamp)
        then dst st (format_time entry.timestamp ++ bytes " ")
        else (st, 0, none) in
      elim e [
        | some x ↦ (st', some x)
        | none ↦ let (st'', m, f) = dst st' entry.content in (st'', f)
      ]

  -- One line: the read may stop in front of it, or its entry is written or dropped.
  unfoldable pub emit_line : S → List ℕ → S × Bool × Option ℕ
  unfolding write_log_entry
  emit_line st line = elim (decode_log_line parse_time line opts.format) [
    | none ↦ (st, false, none)
    | some entry ↦
        if entry_out_of_range entry opts
        then (st, true, none)
        else if entry_too_old entry opts
        then (st, false, none)
        else let (st', e) = write_log_entry st entry in (st', false, e)
  ]

  unfoldable pub emit_lines : S → ℕ → List (List ℕ) → Emitted S
  unfolding emit_line
  emit_lines st offset [] = record { state = st; offset = offset; is_done = false; failure = none }
  emit_lines st offset (line ∷ more) =
      let (st', stop, e) = emit_line st line in
      let rest = emit_lines st' (offset + length line) more in
      if not (is_complete line) && opts.follow
      then record { state = st; offset = offset; is_done = false; failure = none }
      else if stop
      then record { state = st; offset = offset; is_done = true; failure = none }
      else elim e [
        | some x ↦ record { state = st'; offset = offset; is_done = false; failure = some x }
        | none ↦ rest
      ]

  unfoldable pub emit_log_lines : S → List ℕ → ℕ → Emitted S
  unfolding emit_lines lines
  emit_log_lines st file offset = emit_lines st offset (lines (drop offset file))
