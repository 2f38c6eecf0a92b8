-- ===== src/Streams/Frame/Total.antt =====
-- Demux of internal/streams/stdcopy.go always returns: each frame takes bytes off the source.

use dockerdless.Base.{
  ℕ, zero, suc, ◌+◌, ◌≤◌, ◌<◌, ◌≡◌, refl, ap, inl, inr, Option, some, List, length, arith, get_or,
  Result, ok, err, length-drop, Option-cases, Result-cases,
}
use dockerdless.Streams.Io.{Sink, Source, ReadError, read_full}
use dockerdless.Streams.Frame.{
  Frame, DemuxError, read_failed, read_frame, read_body, read_payload, deliver, demux_loop,
  demux_end, demux, frame_size,
}

read_full_le : (n : ℕ) (s : Source) → length (read_full n s).1.pending ≤ length s.pending
unfolding read_full
read_full_le n s = ground (arith, length-drop n s.pending)

read_full_takes :
    (n : ℕ) (s : Source) (h : List ℕ)
    → (read_full n s).0 ≡ ok h
    → length (read_full n s).1.pending + n ≡ length s.pending
unfolding read_full
read_full_takes n s h e = ground (arith, length-drop n s.pending)

read_payload_rest :
    (stream : ℕ) (r : Result ReadError (List ℕ) × Source) → (read_payload stream r).1 ≡ r.1
unfolding read_payload
read_payload_rest stream (ok p, s) = refl
read_payload_rest stream (err e, s) = refl

read_body_le :
    (r : Result ReadError (List ℕ) × Source) → length (read_body r).1.pending ≤ length r.1.pending
unfolding read_body
read_body_le (err e, s) = omega arith
read_body_le (ok h, s) = ground (
  arith,
  read_full_le (frame_size h) s,
  ap (λ t. length t.pending) (read_payload_rest (get_or h 0 0) (read_full (frame_size h) s)),
)

read_body_failed : (e : ReadError) (s : Source) → (read_body (err e, s)).0 ≡ err (read_failed e)
unfolding read_body
read_body_failed e s = refl

-- A frame takes its header off the source.
read_frame-shorter :
    (s : Source) (f : Frame)
    → (read_frame s).0 ≡ ok f
    → length (read_frame s).1.pending < length s.pending
unfolding read_frame
read_frame-shorter s f h = elim (Result-cases (read_full 8 s).0) [
  | inr (x, e) ↦ absurd (cc (h, e, read_body_failed x (read_full 8 s).1))
  | inl (header, e) ↦ omega (arith, read_body_le (read_full 8 s), read_full_takes 8 s header e)
]

module _ {S : Type 0} (dst_out dst_err : Sink S) where
  -- Demux always returns: any source, any destinations.
  demux_loop_total :
      (f : ℕ) (st : S) (s : Source) (written : ℕ)
      → length s.pending < f
      → (r : S × ℕ × Option DemuxError) × (demux_loop dst_out dst_err f st s written ≡ some r)
  unfolding demux_loop
  demux_loop_total zero st s written h = absurd (omega arith)
  demux_loop_total (suc f) st s written h = elim (Result-cases (read_frame s).0) [
    | inr (x, e) ↦ ((st, written, demux_end x), ground (arith, e))
    | inl (frame, e) ↦ elim (Option-cases (deliver dst_out dst_err st frame).2) [
      | inr (x, stop) ↦ (
        (
          (deliver dst_out dst_err st frame).0,
          written + (deliver dst_out dst_err st frame).1,
          some x,
        ),
        ground (arith, e, stop),
      )
      | inl go ↦
          let (r, k) =
            demux_loop_total f (deliver dst_out dst_err st frame).0 (read_frame s).1
              (written + (deliver dst_out dst_err st frame).1)
              (omega (arith, read_frame-shorter s frame e)) in
          (r, ground (arith, e, go, k))
    ]
  ]

  -- Demux returns, whatever the bytes of the source and whatever the two writers do.
  pub demux_total :
      (st : S) (s : Source)
      → (r : S × ℕ × Option DemuxError) × (demux dst_out dst_err st s ≡ some r)
  unfolding demux
  demux_total st s = demux_loop_total (suc (length s.pending)) st s 0 (omega arith)
