-- ===== src/Streams/Frame/Truncated.antt =====
-- A stream of internal/streams/stdcopy.go that ends inside a frame: what ReadFrame reports, and the
-- round trip of the writers and Demux with such an end.
use dockerdless.Base.{
  ℕ, zero, suc, ◌+◌, ◌-◌, ◌≤◌, ◌<◌, ◌≡◌, refl, sym, ap, ◌∙◌, inl, inr, none, some, List, [], ◌∷◌,
  ◌++◌, length, take, ltb, nat_beq, arith, if◌then◌else◌, ok, err, length-append, length-take,
  Bool-cases, All, take-append_past,
}
use dockerdless.Streams.Io.{Source, ReadError, eof, unexpected_eof, read_full, short_read}
use dockerdless.Streams.Frame.{
  read_failed, encode_frame, read_frame, default_max_frame_len, systemerr, read_body, read_payload,
  demux_loop, demux_end, demux,
}
use dockerdless.Streams.Frame.Read.{header, read_full-append, put_uint32_size}
use dockerdless.Streams.Frame.Mux.{
  Outputs, to_out, to_err, rest_of, Message, mux, outputs, payload_total, wire, frame_count,
  mux-wire, frame_count-le, IsData, demux_messages,
}

read_full_short :
    (n : ℕ) (t : List ℕ)
    → length t < n
    → read_full n (rest_of t) ≡ (err (short_read (rest_of t)), rest_of [])
unfolding read_full
read_full_short n t h = ground arith

-- A read that ends early reports a clean end only where it found nothing.
abbrev early : List ℕ → ReadError
early [] = eof
early (b ∷ t) = unexpected_eof

short_read-rest_of : (t : List ℕ) → short_read (rest_of t) ≡ early t
short_read-rest_of [] = refl
short_read-rest_of (b ∷ t) = refl

read_frame_header_cut :
    (t : List ℕ) → length t < 8 → (read_frame (rest_of t)).0 ≡ err (read_failed (early t))
unfolding read_frame read_body
read_frame_header_cut t h = ground (arith, read_full_short 8 t h, short_read-rest_of t)

read_body_cut :
    (stream : ℕ) (p t : List ℕ)
    → stream ≤ systemerr
    → length p ≤ default_max_frame_len
    → length t < length p
    → (read_body (ok (header stream p), rest_of t)).0 ≡ err (read_failed (early t))
unfolding read_body read_payload
read_body_cut stream p t known small cut = ground (
  arith,
  put_uint32_size (length p) small,
  read_full_short (length p) t cut,
  short_read-rest_of t,
)

read_frame_payload_cut :
    (stream : ℕ) (p t : List ℕ)
    → stream ≤ systemerr
    → length p ≤ default_max_frame_len
    → length t < length p
    → (read_frame (rest_of (header stream p ++ t))).0 ≡ err (read_failed (early t))
unfolding read_frame
read_frame_payload_cut stream p t known small cut =
    ap (λ r. (read_body r).0) (read_full-append (header stream p) t none)
    ∙ read_body_cut stream p t known small cut

-- The frame cut behind its first k bytes, where k is at least the length of the header.
take-encode_frame :
    (stream : ℕ) (p : List ℕ) (j : ℕ)
    → take (8 + j) (encode_frame stream p) ≡ header stream p ++ take j p
unfolding encode_frame
take-encode_frame stream p j = take-append_past (header stream p) p j

-- What is left of the part of the frame in which the cut lies.
abbrev pub cut_report : ℕ → ReadError
cut_report k = if nat_beq k 0 then eof else if nat_beq k 8 then eof else unexpected_eof

early-take_frame :
    (stream k : ℕ) (p : List ℕ) → k < 8 → early (take k (encode_frame stream p)) ≡ cut_report k
unfolding encode_frame
early-take_frame stream zero p h = refl
early-take_frame stream (suc k) p h = ground arith

early-take : (j : ℕ) (p : List ℕ) → j < length p → early (take j p) ≡ cut_report (8 + j)
early-take zero p h = refl
early-take (suc j) [] h = absurd (omega arith)
early-take (suc j) (b ∷ p) h = ground arith

-- ReadFrame on a frame of which only the first k bytes have come: io.EOF if there is no byte at all,
-- and also if the cut is exactly behind the header; io.ErrUnexpectedEOF at every other cut.
pub read_frame_cut :
    (stream : ℕ) (p : List ℕ) (k : ℕ)
    → stream ≤ systemerr
    → length p ≤ default_max_frame_len
    → k < 8 + length p
    → (read_frame (rest_of (take k (encode_frame stream p)))).0 ≡ err (read_failed (cut_report k))
read_frame_cut stream p k known small cut = elim (Bool-cases (ltb k 8)) [
  | inl e ↦
      let early_cut : k < 8 = ground arith in
      read_frame_header_cut (take k (encode_frame stream p))
        (omega (arith, length-take k (encode_frame stream p)))
      ∙ ap (λ x. err (read_failed x)) (early-take_frame stream k p early_cut)
  | inr e ↦
      let whole : 8 ≤ k = ground arith in
      let split : k ≡ 8 + (k - 8) = omega arith in
      let j = k - 8 in
      ap (λ n. (read_frame (rest_of (take n (encode_frame stream p)))).0) split
      ∙ ap (λ t. (read_frame (rest_of t)).0) (take-encode_frame stream p j)
      ∙ read_frame_payload_cut stream p (take j p) known small (omega (arith, length-take j p))
      ∙ ap (λ x. err (read_failed x)) (early-take j p (omega arith) ∙ ap cut_report (sym split))
]

cut_report-ends : (k : ℕ) → demux_end (read_failed (cut_report k)) ≡ none
unfolding demux_end
cut_report-ends k = ground arith

demux_cut :
    (f : ℕ) (st : Outputs) (written : ℕ) (s : Source) (k : ℕ)
    → (read_frame s).0 ≡ err (read_failed (cut_report k))
    → demux_loop to_out to_err (suc f) st s written ≡ some (st, written, none)
unfolding demux_loop
demux_cut f st written s k h = ground (arith, h, cut_report-ends k)

-- The writers of stdin, stdout and stderr put any payloads on one wire, one Write after the other,
-- and the wire is cut somewhere in a further frame (k = 0: not at all). Then Demux returns with no
-- error: standard error has the payloads of stderr in order, standard output all the others in
-- order, and the count is that of all payload bytes.
pub demux-mux :
    (ms : List Message) (stream : ℕ) (p : List ℕ) (k : ℕ)
    → All IsData ms
    → stream ≤ systemerr
    → length p ≤ default_max_frame_len
    → k < 8 + length p
    → (bytes : List ℕ) × (mux [] ms ≡ some bytes)
      × (demux to_out to_err ([], []) (rest_of (bytes ++ take k (encode_frame stream p)))
          ≡ some (outputs ms ([], []), payload_total ms, none))
unfolding demux
demux-mux ms stream p k is_data known small cut =
    let tail = take k (encode_frame stream p) in
    let fuel = length (wire ms ++ tail) - frame_count ms in
    let enough : suc (length (wire ms ++ tail)) ≡ frame_count ms + suc fuel =
      omega (arith, frame_count-le ms, length-append (wire ms) tail) in
    (
      wire ms,
      mux-wire [] ms,
      ap (λ n. demux_loop to_out to_err n ([], []) (rest_of (wire ms ++ tail)) 0) enough
          ∙ demux_messages ms (suc fuel) tail ([], []) 0 is_data
          ∙ demux_cut fuel (outputs ms ([], [])) (0 + payload_total ms) (rest_of tail) k
              (read_frame_cut stream p k known small cut)
          ∙ ap (λ (n : ℕ). some (outputs ms ([], []), n, none)) (omega arith),
    )
