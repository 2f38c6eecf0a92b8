-- ===== src/Streams/Logs/Follow.antt =====
-- The follow loop of internal/streams/logs.go: a log file is polled, tracked over rotation and
-- truncation, and flushed when the context ends. What each poll sees is an input.
pub mod Growth
mod Tests
use dockerdless.Base.{
  ℕ, zero, suc, ◌+◌, Bool, true, false, not, ◌&&◌, ◌||◌, Option, none, some, List, [], ◌∷◌, Text,
  nat_beq, ltb, length, if◌then◌else◌,
}
use dockerdless.Domain.Model.{Time}
use dockerdless.Streams.Io.{Sink}
use dockerdless.Streams.Logs.{LogOptions, Emitted, find_tail_start, emit_log_lines}

-- `last_stat` is the identity of the file that was read last, as os.SameFile compares it.
pub record LogReadState : Type 0 where
  pub started : Bool
  pub offset : ℕ
  pub last_stat : Option ℕ

abbrev pub not_started : LogReadState
not_started = record { started = false; offset = 0; last_stat = none }

-- What opening the path gives: no file, or a file with its identity and its bytes.
pub data Opened : Type 0 where
  missing : Opened
  present : ℕ → List ℕ → Opened

-- One iteration: whether the context has ended before it, what is opened, whether the context ends
-- during the sleep, and what the last flush opens then.
pub record Poll : Type 0 where
  pub canceled : Bool
  pub opened : Opened
  pub interrupted : Bool
  pub last : Opened

pub data ReadLogsError : Type 0 where
  opening_failed : ReadLogsError
  writing_failed : ℕ → ReadLogsError

unfoldable pub track : LogReadState → ℕ → List ℕ → LogOptions → LogReadState
track s id file opts =
    let same : Bool = elim s.last_stat [ none ↦ false | some j ↦ nat_beq j id ] in
    record {
      started = true;
      offset =
          if not s.started
          then find_tail_start file opts.tail
          else if not same || ltb (length file) s.offset
          then 0
          else s.offset;
      last_stat = some id;
    }

-- Where readLogsOnce leaves the outputs and the state, whether the read is done, and its error.
pub record Polled (S : Type 0) : Type 0 where
  pub outputs : S
  pub reading : LogReadState
  pub is_done : Bool
  pub failure : Option ReadLogsError

module _ {S : Type 0} (parse_time : Text → Option Time) (format_time : Time → Text)
    (stdout stderr : Sink S) (opts : LogOptions) where
  write_failure : Option ℕ → Option ReadLogsError
  write_failure none = none
  write_failure (some x) = some (writing_failed x)

  -- The read has ended whether or not the flush fails.
  unfoldable pub flush : S → LogReadState → Opened → Polled S
  unfolding write_failure
  flush st s missing = record { outputs = st; reading = s; is_done = true; failure = none }
  flush st s (present id file) =
      if not s.started
      then record { outputs = st; reading = s; is_done = true; failure = none }
      else let start = if ltb (length file) s.offset then 0 else s.offset in
        let e = emit_log_lines parse_time format_time stdout stderr opts st file start in
        record {
          outputs = e.state;
          reading = record s { offset = e.offset };
          is_done = true;
          failure = write_failure e.failure;
        }

  -- awaitLogFile
  unfoldable pub await_log_file : S → LogReadState → Bool → Polled S
  await_log_file st s interrupted =
      if not opts.follow
      then record { outputs = st; reading = s; is_done = false; failure = some opening_failed }
      else record { outputs = st; reading = s; is_done = interrupted; failure = none }

  unfoldable pub read_opened : S → LogReadState → Poll → ℕ → List ℕ → Polled S
  unfolding track flush write_failure
  read_opened st s poll id file =
      let tracked = track s id file opts in
      let e = emit_log_lines parse_time format_time stdout stderr opts st file tracked.offset in
      let next : LogReadState = record tracked { offset = e.offset } in
      elim e.failure [
        | some x ↦ record {
          outputs = e.state;
          reading = next;
          is_done = false;
          failure = some (writing_failed x);
        }
        | none ↦
            if e.is_done || not opts.follow
            then record { outputs = e.state; reading = next; is_done = true; failure = none }
            else if poll.interrupted
            then flush e.state next poll.last
            else record { outputs = e.state; reading = next; is_done = false; failure = none }
      ]

  unfoldable pub read_logs_once : S → LogReadState → Poll → Polled S
  unfolding read_opened await_log_file
  read_logs_once st s poll = if poll.canceled then flush st s poll.opened else elim poll.opened [
    | missing ↦ await_log_file st s poll.interrupted
    | present id file ↦ read_opened st s poll id file
  ]

  -- The loop of ReadLogs over the polls that come; a list that ends is a read that still goes on.
  unfoldable pub read_logs : S → LogReadState → List Poll → Polled S
  unfolding read_logs_once
  read_logs st s [] = record { outputs = st; reading = s; is_done = false; failure = none }
  read_logs st s (poll ∷ polls) =
      let p = read_logs_once st s poll in
      let rest = read_logs p.outputs p.reading polls in
      elim p.failure [ some x ↦ p | none ↦ if p.is_done then p else rest ]
