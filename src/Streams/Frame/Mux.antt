-- ===== src/Streams/Frame/Mux.antt =====
-- Demux of internal/streams/stdcopy.go undoes the writers: every payload arrives whole and in order
-- at the destination of its stream.
use dockerdless.Base.{
  ℕ, zero, suc, ◌+◌, ◌≤◌, ◌<◌, ◌≡◌, refl, sym, ap, ap₂, ◌∙◌, Option, none, some, List, [], ◌∷◌,
  ◌++◌, length, drop, nat_beq, arith, if◌then◌else◌, length-append, All, append_assoc, append-nil,
}
use dockerdless.Streams.Io.{buffer, Sink, Source}
use dockerdless.Streams.Frame.{
  encode_frame, default_max_frame_len, systemerr, stderr, deliver, demux_loop, chunk_of,
  write_bytes,
}
use dockerdless.Streams.Frame.Write.{
  chunks, concat, encode_chunks, frames_of, concat-chunks, length-encode_frame, chunk_of_bounds,
  write_bytes-buffer,
}
use dockerdless.Streams.Frame.Read.{read_frame-encode_frame}

-- Two buffers: what has gone to standard output, and to standard error.
abbrev pub Outputs : Type 0
Outputs = List ℕ × List ℕ

abbrev pub to_out : Sink Outputs
to_out st p = ((st.0 ++ p, st.1), length p, none)

abbrev pub to_err : Sink Outputs
to_err st p = ((st.0, st.1 ++ p), length p, none)

-- A payload that goes to the destination of its stream.
abbrev pub append_to : ℕ → List ℕ → Outputs → Outputs
append_to stream p st = if nat_beq stream stderr then (st.0, st.1 ++ p) else (st.0 ++ p, st.1)

deliver-outputs :
    (stream : ℕ) (p : List ℕ) (st : Outputs)
    → stream < systemerr
    → deliver to_out to_err st (record { stream = stream; payload = p })
      ≡ (append_to stream p st, length p, none)
unfolding deliver
deliver-outputs stream p st h = ground arith

append_to-append :
    (stream : ℕ) (p q : List ℕ) (st : Outputs)
    → append_to stream q (append_to stream p st) ≡ append_to stream (p ++ q) st
append_to-append stream p q st = ground (arith, append_assoc st.0 p q, append_assoc st.1 p q)

abbrev pub rest_of : List ℕ → Source
rest_of rest = record { pending = rest; failure = none }

demux_step :
    (stream f : ℕ) (p rest : List ℕ) (st : Outputs) (written : ℕ)
    → stream < systemerr
    → length p ≤ default_max_frame_len
    → demux_loop to_out to_err (suc f) st (rest_of (encode_frame stream p ++ rest)) written
      ≡ demux_loop to_out to_err f (append_to stream p st) (rest_of rest) (written + length p)
unfolding demux_loop
demux_step stream f p rest st written known small = ground (
  arith,
  read_frame-encode_frame stream p rest none (omega arith) small,
  deliver-outputs stream p st known,
)

abbrev IsSmall : List ℕ → Type 0
IsSmall c = length c ≤ default_max_frame_len

-- The frames of one payload are delivered one after the other.
demux_chunks :
    (stream f : ℕ) (cs : List (List ℕ)) (rest : List ℕ) (st : Outputs) (written : ℕ)
    → stream < systemerr
    → All IsSmall cs
    → demux_loop to_out to_err
        (length cs + f)
        st
        (rest_of (encode_chunks stream cs ++ rest))
        written
      ≡ demux_loop to_out to_err f
          (append_to stream (concat cs) st)
          (rest_of rest)
          (written + length (concat cs))
unfolding encode_chunks
demux_chunks stream f [] rest st written known small =
    ap₂ (λ n (m : ℕ). demux_loop to_out to_err n st (rest_of rest) m) (omega arith) (omega arith)
    ∙ ap (λ o. demux_loop to_out to_err f o (rest_of rest) (written + 0))
        (ground (arith, append-nil st.0, append-nil st.1))
demux_chunks stream f (c ∷ cs) rest st written known small =
    let first = encode_frame stream c in
    let others = encode_chunks stream cs in
    ap₂ (λ n bytes. demux_loop to_out to_err n st (rest_of bytes) written) (omega arith)
      (append_assoc first others rest)
    ∙ demux_step stream (length cs + f) c (others ++ rest) st written known small.0
    ∙ demux_chunks stream f cs rest (append_to stream c st) (written + length c) known small.1
    ∙ ap₂ (λ o (n : ℕ). demux_loop to_out to_err f o (rest_of rest) n)
        (append_to-append stream c (concat cs) st) (omega (arith, length-append c (concat cs)))

chunks-IsSmall : (f : ℕ) (p : List ℕ) → All IsSmall (chunks f p)
unfolding chunks
chunks-IsSmall zero p = tt
chunks-IsSmall (suc f) [] = tt
chunks-IsSmall (suc f) (b ∷ p) = (
  omega (arith, (chunk_of_bounds (b ∷ p)).1),
  chunks-IsSmall f (drop (length (chunk_of (b ∷ p))) (b ∷ p)),
)

frames_of-IsSmall : (p : List ℕ) → All IsSmall (frames_of p)
unfolding frames_of
frames_of-IsSmall [] = (omega arith, tt)
frames_of-IsSmall (b ∷ p) = chunks-IsSmall (length (b ∷ p)) (b ∷ p)

concat-frames_of : (p : List ℕ) → concat (frames_of p) ≡ p
unfolding frames_of
concat-frames_of [] = refl
concat-frames_of (b ∷ p) = concat-chunks (length (b ∷ p)) (b ∷ p) (omega arith)

length-encode_chunks :
    (stream : ℕ) (cs : List (List ℕ)) → length cs ≤ length (encode_chunks stream cs)
unfolding encode_chunks
length-encode_chunks stream [] = omega arith
length-encode_chunks stream (c ∷ cs) = omega (
  arith,
  length-append (encode_frame stream c) (encode_chunks stream cs),
  length-encode_frame stream c,
  length-encode_chunks stream cs,
)

-- One Write of a payload to the writer of a stream.
pub record Message : Type 0 where
  pub stream : ℕ
  pub payload : List ℕ

-- The bytes that the writers have put on one wire.
pub mux : List ℕ → List Message → Option (List ℕ)
mux st [] = some st
mux st (m ∷ ms) = elim (write_bytes buffer m.stream st m.payload) [
  | none ↦ none
  | some (st', n, e) ↦ mux st' ms
]

pub outputs : List Message → Outputs → Outputs
outputs [] st = st
outputs (m ∷ ms) st = outputs ms (append_to m.stream m.payload st)

pub payload_total : List Message → ℕ
payload_total [] = 0
payload_total (m ∷ ms) = length m.payload + payload_total ms

pub wire : List Message → List ℕ
wire [] = []
wire (m ∷ ms) = encode_chunks m.stream (frames_of m.payload) ++ wire ms

pub frame_count : List Message → ℕ
frame_count [] = 0
frame_count (m ∷ ms) = length (frames_of m.payload) + frame_count ms

pub mux-wire : (st : List ℕ) (ms : List Message) → mux st ms ≡ some (st ++ wire ms)
unfolding mux wire
mux-wire st [] = ap some (sym (append-nil st))
mux-wire st (m ∷ ms) =
    let sent = encode_chunks m.stream (frames_of m.payload) in
    rw (write_bytes-buffer m.stream st m.payload, mux)
      (mux-wire (st ++ sent) ms ∙ ap some (append_assoc st sent (wire ms)))

pub frame_count-le : (ms : List Message) → frame_count ms ≤ length (wire ms)
unfolding frame_count wire
frame_count-le [] = omega arith
frame_count-le (m ∷ ms) = omega (
  arith,
  length-append (encode_chunks m.stream (frames_of m.payload)) (wire ms),
  length-encode_chunks m.stream (frames_of m.payload),
  frame_count-le ms,
)

-- A stream that Demux delivers: not a daemon error.
abbrev pub IsData : Message → Type 0
IsData m = m.stream < systemerr

pub demux_messages :
    (ms : List Message) (f : ℕ) (rest : List ℕ) (st : Outputs) (written : ℕ)
    → All IsData ms
    → demux_loop to_out to_err (frame_count ms + f) st (rest_of (wire ms ++ rest)) written
      ≡ demux_loop to_out to_err f (outputs ms st) (rest_of rest) (written + payload_total ms)
unfolding frame_count wire outputs payload_total
demux_messages [] f rest st written d =
    ap₂ (λ n (m : ℕ). demux_loop to_out to_err n st (rest_of rest) m) (omega arith) (omega arith)
demux_messages (m ∷ ms) f rest st written d =
    let cs = frames_of m.payload in
    let sent = encode_chunks m.stream cs in
    let whole = concat-frames_of m.payload in
    ap₂ (λ n bytes. demux_loop to_out to_err n st (rest_of bytes) written) (omega arith)
      (append_assoc sent (wire ms) rest)
    ∙ demux_chunks m.stream (frame_count ms + f) cs (wire ms ++ rest) st written d.0
        (frames_of-IsSmall m.payload)
    ∙ ap
        (λ p.
          demux_loop to_out to_err (frame_count ms + f) (append_to m.stream p st)
            (rest_of (wire ms ++ rest)) (written + length p))
        whole
    ∙ demux_messages ms f rest (append_to m.stream m.payload st) (written + length m.payload) d.1
    ∙ ap
        (λ (n : ℕ).
          demux_loop to_out to_err f (outputs ms (append_to m.stream m.payload st)) (rest_of rest)
            n)
        (omega arith)
