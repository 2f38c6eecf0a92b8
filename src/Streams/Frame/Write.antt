-- ===== src/Streams/Frame/Write.antt =====
-- Write of internal/streams/stdcopy.go: it ends, keeps the contract of io.Writer, and puts its
-- payload on the wire in frames.
use dockerdless.Base.{
  ℕ, zero, suc, ◌+◌, ◌≤◌, ◌<◌, ◌≡◌, refl, ap, ◌∙◌, none, some, List, [], ◌∷◌, ◌++◌, length, drop,
  arith, length-take, length-drop, take-append-drop_taken, ap₂, append_assoc, append-nil,
}
use dockerdless.Streams.Io.{buffer}
use dockerdless.Streams.Frame.{
  encode_frame, chunk_of, write_chunk, write_loop, write_bytes, max_write_chunk,
}

pub length-encode_frame : (stream : ℕ) (p : List ℕ) → length (encode_frame stream p) ≡ 8 + length p
unfolding encode_frame
length-encode_frame stream p = omega arith

pub chunk_of_bounds :
    (p : List ℕ)
    → (length (chunk_of p) ≤ length p)
      × (length (chunk_of p) ≤ max_write_chunk)
      × (0 < length p → 0 < length (chunk_of p))
unfolding chunk_of
chunk_of_bounds p = (
  omega (arith, length-take max_write_chunk p),
  omega (arith, length-take max_write_chunk p),
  omega (arith, length-take max_write_chunk p),
)

-- The chunk and what is left behind it make up the payload.
chunk_split : (p : List ℕ) → chunk_of p ++ drop (length (chunk_of p)) p ≡ p
unfolding chunk_of
chunk_split p = take-append-drop_taken max_write_chunk p

-- The payload cut as Write cuts it.
unfoldable pub chunks : ℕ → List ℕ → List (List ℕ)
chunks zero p = []
chunks (suc f) [] = []
chunks (suc f) (b ∷ p) = chunk_of (b ∷ p) ∷ chunks f (drop (length (chunk_of (b ∷ p))) (b ∷ p))

abbrev pub concat : List (List ℕ) → List ℕ
concat [] = []
concat (p ∷ ps) = p ++ concat ps

-- The bytes that Write puts on the wire.
unfoldable pub encode_chunks : ℕ → List (List ℕ) → List ℕ
encode_chunks stream [] = []
encode_chunks stream (c ∷ cs) = encode_frame stream c ++ encode_chunks stream cs

pub concat-chunks : (f : ℕ) (p : List ℕ) → length p ≤ f → concat (chunks f p) ≡ p
unfolding chunks
concat-chunks zero [] h = refl
concat-chunks zero (b ∷ p) h = absurd (omega arith)
concat-chunks (suc f) [] h = refl
concat-chunks (suc f) (b ∷ p) h =
    let (_, _, pos) = chunk_of_bounds (b ∷ p) in
    ap (◌++◌ (chunk_of (b ∷ p))) (
      concat-chunks f (drop (length (chunk_of (b ∷ p))) (b ∷ p))
        (omega (arith, length-drop (length (chunk_of (b ∷ p))) (b ∷ p), pos (omega arith))))
    ∙ chunk_split (b ∷ p)

write_chunk-buffer :
    (stream : ℕ) (st c : List ℕ)
    → write_chunk buffer stream st c ≡ (st ++ encode_frame stream c, length c, none)
unfolding write_chunk
write_chunk-buffer stream st c = ground arith

write_loop_step :
    (stream f : ℕ) (st : List ℕ) (b : ℕ) (p : List ℕ) (written : ℕ)
    → let c = chunk_of (b ∷ p) in
      write_loop buffer stream (suc f) st (b ∷ p) written
      ≡ write_loop buffer stream f
          (st ++ encode_frame stream c)
          (drop (length c) (b ∷ p))
          (written + length c)
unfolding write_loop
write_loop_step stream f st b p written =
    ground (arith, write_chunk-buffer stream st (chunk_of (b ∷ p)))

write_loop-buffer :
    (stream f : ℕ) (st p : List ℕ) (written : ℕ)
    → length p ≤ f
    → write_loop buffer stream f st p written
      ≡ some (st ++ encode_chunks stream (chunks f p), written + length p, none)
unfolding write_loop encode_chunks chunks
write_loop-buffer stream zero st [] written h = ground (arith, append-nil st)
write_loop-buffer stream (suc f) st [] written h = ground (arith, append-nil st)
write_loop-buffer stream zero st (b ∷ p) written h = absurd (omega arith)
write_loop-buffer stream (suc f) st (b ∷ p) written h =
    let c = chunk_of (b ∷ p) in
    let rest = drop (length c) (b ∷ p) in
    let (short, _, pos) = chunk_of_bounds (b ∷ p) in
    let len = length-drop (length c) (b ∷ p) in
    write_loop_step stream f st b p written
    ∙ (write_loop-buffer stream f (st ++ encode_frame stream c) rest (written + length c)
          (omega (arith, len, pos (omega arith)))
        ∙ ap₂ (λ bytes (n : ℕ). some (bytes, n, none))
            (append_assoc st (encode_frame stream c) (encode_chunks stream (chunks f rest)))
            (omega (arith, len, short)))

-- The frames that carry a payload: one of length 0 for the empty payload.
unfoldable pub frames_of : List ℕ → List (List ℕ)
frames_of [] = [] ∷ []
frames_of (b ∷ p) = chunks (length (b ∷ p)) (b ∷ p)

pub write_bytes-buffer :
    (stream : ℕ) (st p : List ℕ)
    → write_bytes buffer stream st p
      ≡ some (st ++ encode_chunks stream (frames_of p), length p, none)
unfolding write_bytes frames_of encode_chunks
write_bytes-buffer stream st [] =
    rw (write_chunk-buffer stream st []) (ground (arith, append-nil (encode_frame stream [])))
write_bytes-buffer stream st (b ∷ p) =
    write_loop-buffer stream (length (b ∷ p)) st (b ∷ p) 0 (omega arith)
    ∙ ap (λ (n : ℕ). some (st ++ encode_chunks stream (chunks (length (b ∷ p)) (b ∷ p)), n, none))
        (omega arith)
