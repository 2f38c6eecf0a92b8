-- ===== src/Streams/Logs/Tests.antt =====
-- Runs of internal/streams/logs.go on short files.
use dockerdless.Base.{
  length, ℕ, suc, ◌≡◌, ◌≤◌, ◌⊎◌, refl, true, false, Option, none, some, List, [], ◌∷◌, ◌++◌, Text,
  bytes, text_beq, arith, ok, pos, negsuc, get_or, drop, int_beq,
}
use dockerdless.Domain.Model.{Time}
use dockerdless.Streams.Frame.Mux.{Outputs, to_out, to_err}
use dockerdless.Streams.Logs.{
  Emitted, LogOptions, log_stderr, format_auto, find_tail_start, tail_loop, scan_back,
  parse_cri_entry, is_partial_tag, emit_log_lines, emit_lines, emit_line, lines, is_complete,
  decode_log_line, cut_token, cut, log_stream, entry_out_of_range, entry_too_old, write_log_entry,
}
use dockerdless.Streams.Logs.Entry.{parse_cri_entry_lem}
use dockerdless.Streams.Logs.Tail.{newlines, find_tail_start_lem}
use dockerdless.Streams.Logs.Resume.{GoesOn, emit_log_lines_resume}

-- A clock whose timestamps are one letter.
abbrev parse_letter : Text → Option Time
parse_letter [] = none
parse_letter (c ∷ []) = some (pos c)
parse_letter (c ∷ d ∷ s) = none

abbrev format_letter : Time → Text
format_letter (pos c) = c ∷ []
format_letter (negsuc c) = []

abbrev following : LogOptions
following = record {
  follow = true;
  tail = pos 0;
  since = pos 0;
  until = pos 0;
  timestamps = false;
  format = format_auto;
}

-- A line on standard error, and the first half of one on standard output.
abbrev half : List ℕ
half = bytes "T stderr F a" ++ b'\n' ∷ bytes "T stdo"

abbrev rest : List ℕ
rest = bytes "ut F b" ++ b'\n' ∷ []

parse_cri_entry_lem_example :
    (parse_cri_entry parse_letter (bytes "T stderr P:x a b")
      ≡ ok (record {
        timestamp = pos b'T';
        stream = log_stderr;
        is_partial = is_partial_tag (bytes "P:x");
        content = bytes "a b";
      }))
    × ((flags : Text) → bytes "P:x" ≡ bytes "P:" ++ flags → is_partial_tag (bytes "P:x") ≡ true)
    × ((flags : Text) → bytes "P:x" ≡ bytes "F:" ++ flags → is_partial_tag (bytes "P:x") ≡ false)
parse_cri_entry_lem_example =
    parse_cri_entry_lem parse_letter (bytes "T") (bytes "P:x") (bytes "a b") (pos b'T') log_stderr
      (λ e. omega arith, tt) (λ e. omega arith, (λ e. omega arith, (λ e. omega arith, tt))) refl

find_tail_start_lem_example :
    (((find_tail_start half (pos 1) ≡ 0) × (newlines half ≤ 1))
      ⊎ ((p : ℕ) × (find_tail_start half (pos 1) ≡ suc p)
          × (get_or half p 0 ≡ b'\n')
          × (newlines (drop (suc p) half) ≡ 1)))
    × (find_tail_start half (pos 0) ≡ 0)
    × ((k : ℕ) → find_tail_start half (negsuc k) ≡ 0)
find_tail_start_lem_example = find_tail_start_lem half 0

half-GoesOn :
    GoesOn (emit_log_lines parse_letter format_letter to_out to_err following ([], []) half 0)
unfolding emit_log_lines emit_lines emit_line lines is_complete decode_log_line parse_cri_entry
    cut_token cut log_stream text_beq is_partial_tag entry_out_of_range entry_too_old
    write_log_entry int_beq
half-GoesOn = (refl, refl)

abbrev half_read : Emitted Outputs
half_read = emit_log_lines parse_letter format_letter to_out to_err following ([], []) half 0

emit_log_lines_resume_example :
    (emit_log_lines parse_letter format_letter to_out to_err following half_read.state
        (half ++ rest)
        half_read.offset
      ≡ emit_log_lines parse_letter format_letter to_out to_err following ([], []) (half ++ rest) 0)
    × (half_read.offset ≤ length half)
emit_log_lines_resume_example =
    emit_log_lines_resume parse_letter format_letter to_out to_err following ([], []) half rest 0
      refl (omega arith) half-GoesOn

whole_emitted :
    (emit_log_lines parse_letter format_letter to_out to_err following
      ([], [])
      (half ++ rest)
      0).state
    ≡ (bytes "b" ++ b'\n' ∷ [], bytes "a" ++ b'\n' ∷ [])
unfolding emit_log_lines emit_lines emit_line lines is_complete decode_log_line parse_cri_entry
    cut_token cut log_stream text_beq is_partial_tag entry_out_of_range entry_too_old
    write_log_entry int_beq
whole_emitted = refl

-- The last complete line of a file of three.
tail_of_three : find_tail_start (1 ∷ 10 ∷ 2 ∷ 10 ∷ 3 ∷ 10 ∷ 4 ∷ []) (pos 1) ≡ 4
unfolding find_tail_start tail_loop scan_back
tail_of_three = refl
