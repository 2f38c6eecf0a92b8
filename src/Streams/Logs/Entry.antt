-- ===== src/Streams/Logs/Entry.antt =====
-- ParseCRIEntry of internal/streams/logs.go reads back what a CRI line is made of.
use dockerdless.Base.{
  ℕ, ◌≡◌, ◌≢◌, refl, true, false, Option, some, [], ◌∷◌, ◌++◌, Text, bytes, text_beq, arith, All,
  ok, ap, ◌∙◌,
}
use dockerdless.Domain.Model.{Time}
use dockerdless.Streams.Logs.{
  LogStream, log_stdout, log_stderr, cut, cut_token, log_stream, is_partial_tag, parse_cri_entry,
}

abbrev pub Without : ℕ → Text → Type 0
Without c s = All (λ d. d ≢ c) s

cut-append : (c : ℕ) (s t : Text) → Without c s → cut c (s ++ c ∷ t) ≡ some (s, t)
unfolding cut
cut-append c [] t h = ground arith
cut-append c (d ∷ s) t h = ground (arith, h.0, cut-append c s t h.1)

cut_token-append : (s t : Text) → Without b' ' s → cut_token (s ++ b' ' ∷ t) ≡ some (s, t)
unfolding cut_token
cut_token-append s t h = cut-append b' ' s t h

abbrev pub stream_name : LogStream → Text
stream_name log_stdout = bytes "stdout"
stream_name log_stderr = bytes "stderr"

stream_name-Without : (s : LogStream) → Without b' ' (stream_name s)
stream_name-Without log_stdout = (
  λ e. omega arith,
  (
    λ e. omega arith,
    (λ e. omega arith, (λ e. omega arith, (λ e. omega arith, (λ e. omega arith, tt)))),
  ),
)
stream_name-Without log_stderr = (
  λ e. omega arith,
  (
    λ e. omega arith,
    (λ e. omega arith, (λ e. omega arith, (λ e. omega arith, (λ e. omega arith, tt)))),
  ),
)

log_stream-stream_name : (s : LogStream) → log_stream (stream_name s) ≡ ok s
unfolding log_stream text_beq
log_stream-stream_name log_stdout = refl
log_stream-stream_name log_stderr = refl

partial_first : (flags : Text) → is_partial_tag (bytes "P:" ++ flags) ≡ true
unfolding is_partial_tag cut text_beq
partial_first flags = refl

full_first : (flags : Text) → is_partial_tag (bytes "F:" ++ flags) ≡ false
unfolding is_partial_tag cut text_beq
full_first flags = refl

-- A line made of a timestamp that parses, a stream's name, a tag and any content, with a space
-- behind each of the first three and none inside them, is read back as exactly these; it is partial
-- if its tag is made of "P:" and flags, and not partial if it is made of "F:" and flags.
pub parse_cri_entry_lem :
    (parse_time : Text → Option Time) (timestamp tag content : Text) (ts : Time) (s : LogStream)
    → Without b' ' timestamp
    → Without b' ' tag
    → parse_time timestamp ≡ some ts
    → (parse_cri_entry parse_time
          (timestamp ++ b' ' ∷ (stream_name s ++ b' ' ∷ (tag ++ b' ' ∷ content)))
        ≡ ok (record {
          timestamp = ts;
          stream = s;
          is_partial = is_partial_tag tag;
          content = content;
        }))
      × ((flags : Text) → tag ≡ bytes "P:" ++ flags → is_partial_tag tag ≡ true)
      × ((flags : Text) → tag ≡ bytes "F:" ++ flags → is_partial_tag tag ≡ false)
unfolding parse_cri_entry
parse_cri_entry_lem parse_time timestamp tag content ts s h k parsed =
    let tail = tag ++ b' ' ∷ content in
    (
      ground (
        arith,
        parsed,
        cut_token-append timestamp (stream_name s ++ b' ' ∷ tail) h,
        cut_token-append (stream_name s) tail (stream_name-Without s),
        cut_token-append tag content k,
        log_stream-stream_name s,
      ),
      λ flags e. ap is_partial_tag e ∙ partial_first flags,
      λ flags e. ap is_partial_tag e ∙ full_first flags,
    )
