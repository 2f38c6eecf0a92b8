-- ===== src/Streams/Logs/Follow/Tests.antt =====
-- A raw log that grows while it is followed (internal/streams/logs.go), and one that is rotated.
use dockerdless.Base.{
  ℕ, ◌≡◌, refl, true, false, Option, none, List, [], ◌∷◌, ◌++◌, Text, bytes, pos, int_beq, int_ltb,
}
use dockerdless.Domain.Model.{Time}
use dockerdless.Streams.Frame.Mux.{Outputs, to_out, to_err}
use dockerdless.Streams.Logs.{
  LogOptions, format_raw, find_tail_start, tail_loop, scan_back, emit_log_lines, emit_lines,
  emit_line, lines, is_complete, decode_log_line, entry_out_of_range, entry_too_old,
  write_log_entry,
}
use dockerdless.Streams.Logs.Follow.{
  not_started, Polled, present, missing, track, flush, read_opened, read_logs_once, read_logs,
}
use dockerdless.Streams.Logs.Follow.Growth.{quiet, polls_of, all_of, StillReads, read_logs_growth}

abbrev no_time : Text → Option Time
no_time s = none

abbrev no_text : Time → Text
no_text t = []

-- Follow from the last complete line on.
abbrev last_line : LogOptions
last_line = record {
  follow = true;
  tail = pos 1;
  since = pos 0;
  until = pos 0;
  timestamps = false;
  format = format_raw;
}

abbrev old_file : List ℕ
old_file = bytes "one" ++ b'\n' ∷ bytes "two" ++ b'\n' ∷ bytes "thr"

abbrev added : List (List ℕ)
added = (bytes "ee" ++ b'\n' ∷ bytes "fo") ∷ (bytes "ur" ++ b'\n' ∷ []) ∷ []

abbrev followed : Polled Outputs
followed =
    read_logs no_time no_text to_out to_err last_line ([], []) not_started
      (polls_of 7 old_file added)

followed-StillReads : StillReads followed
unfolding read_logs read_logs_once read_opened track find_tail_start tail_loop scan_back
    emit_log_lines emit_lines emit_line lines is_complete decode_log_line entry_out_of_range
    entry_too_old write_log_entry int_beq int_ltb
followed-StillReads = (refl, refl)

followed_output :
    followed.outputs
    ≡ (bytes "two" ++ b'\n' ∷ bytes "three" ++ b'\n' ∷ bytes "four" ++ b'\n' ∷ [], [])
unfolding read_logs read_logs_once read_opened track find_tail_start tail_loop scan_back
    emit_log_lines emit_lines emit_line lines is_complete decode_log_line entry_out_of_range
    entry_too_old write_log_entry int_beq int_ltb
followed_output = refl

read_logs_growth_example :
    let e =
      emit_log_lines no_time no_text to_out to_err last_line
        ([], [])
        (old_file ++ all_of added)
        (find_tail_start old_file (pos 1)) in
    (followed.outputs ≡ e.state) × (followed.reading.offset ≡ e.offset)
read_logs_growth_example =
    read_logs_growth no_time no_text to_out to_err last_line ([], []) 7 old_file added refl
      followed-StillReads

abbrev new_file : List ℕ
new_file = bytes "start" ++ b'\n' ∷ bytes "more text here" ++ b'\n' ∷ []

-- A rotated file is read from its start by the next poll.
rotated_poll :
    (read_logs no_time no_text to_out to_err last_line
      ([], [])
      not_started
      (quiet 7 old_file ∷ quiet 8 new_file ∷ [])).outputs
    ≡ (bytes "two" ++ b'\n' ∷ new_file, [])
unfolding read_logs read_logs_once read_opened track find_tail_start tail_loop scan_back
    emit_log_lines emit_lines emit_line lines is_complete decode_log_line entry_out_of_range
    entry_too_old write_log_entry int_beq int_ltb
rotated_poll = refl

-- The flush at the end looks at the size alone: of a rotated file it skips what stands before the
-- old offset.
rotated_flush :
    (read_logs no_time no_text to_out to_err last_line
      ([], [])
      not_started
      (quiet 7 old_file
        ∷ record {
          canceled = true;
          opened = present 8 new_file;
          interrupted = false;
          last = missing;
        }
        ∷ [])).outputs
    ≡ (bytes "two" ++ b'\n' ∷ bytes "re text here" ++ b'\n' ∷ [], [])
unfolding read_logs read_logs_once read_opened track flush find_tail_start tail_loop scan_back
    emit_log_lines emit_lines emit_line lines is_complete decode_log_line entry_out_of_range
    entry_too_old write_log_entry int_beq int_ltb
rotated_flush = refl
