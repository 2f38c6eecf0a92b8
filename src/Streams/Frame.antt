-- ===== src/Streams/Frame.antt =====
-- internal/streams/stdcopy.go: Docker's 8-byte framing of multiplexed streams. A byte is a number
-- below 256; the stream ids are those of Docker's attach protocol.
pub mod Total
pub mod Write
pub mod Read
pub mod Mux
pub mod Truncated
mod Tests
use dockerdless.Base.{
  ℕ, zero, suc, ◌+◌, ◌-◌, ◌*◌, ◌/◌, ◌%◌, ◌^◌, ◌≤◌, ◌<◌, ◌≡◌, refl, Bool, true, false, not, ◌&&◌,
  Option, none, some, List, [], ◌∷◌, ◌++◌, length, take, drop, get_or, leb, ltb, nat_beq,
  if◌then◌else◌, Result, ok, err,
}
use dockerdless.Streams.Io.{ReadError, Source, Sink, eof, unexpected_eof, failed, read_full}

abbrev pub stdin : ℕ
stdin = 0

abbrev pub stdout : ℕ
stdout = 1

abbrev pub stderr : ℕ
stderr = 2

abbrev pub systemerr : ℕ
systemerr = 3

abbrev pub frame_header_len : ℕ
frame_header_len = 8

abbrev pub max_write_chunk : ℕ
max_write_chunk = 1048576

abbrev pub default_max_frame_len : ℕ
default_max_frame_len = 33554432

pub record Frame : Type 0 where
  pub stream : ℕ
  pub payload : List ℕ

pub data WriteError : Type 0 where
  uninitialized short_write : WriteError
  sink_failed : ℕ → WriteError

-- binary.BigEndian.PutUint32 of uint32(n).
abbrev pub put_uint32 : ℕ → List ℕ
put_uint32 n = (n / 16777216 % 256) ∷ (n / 65536 % 256) ∷ (n / 256 % 256) ∷ (n % 256) ∷ []

-- [stream_type(1)][0(3)][size(4)] and the payload.
unfoldable pub encode_frame : ℕ → List ℕ → List ℕ
encode_frame stream p = stream % 256 ∷ 0 ∷ 0 ∷ 0 ∷ (put_uint32 (length p) ++ p)

-- `chunk[:maxWriteChunk]`
unfoldable pub chunk_of : List ℕ → List ℕ
chunk_of p = take max_write_chunk p

module _ {S : Type 0} (write : Sink S) (stream : ℕ) where
  -- The count is of payload bytes: what the writer took of the header does not count.
  unfoldable pub write_chunk : S → List ℕ → S × ℕ × Option WriteError
  write_chunk st p =
      let buf = encode_frame stream p in
      let (st', n, e) = write st buf in
      elim e [
        | none ↦
            if nat_beq n (length buf)
            then (st', length p, none)
            else if ltb n frame_header_len
            then (st', 0, some short_write)
            else (st', n - frame_header_len, some short_write)
        | some x ↦
            if ltb n frame_header_len
            then (st', 0, some (sink_failed x))
            else if ltb (n - frame_header_len) (length p)
            then (st', n - frame_header_len, some (sink_failed x))
            else (st', length p, some (sink_failed x))
      ]

  -- The loop of Write; `none` is that the fuel ran out.
  unfoldable pub write_loop : ℕ → S → List ℕ → ℕ → Option (S × ℕ × Option WriteError)
  write_loop f st [] written = some (st, written, none)
  write_loop zero st (b ∷ p) written = none
  write_loop (suc f) st (b ∷ p) written =
      let (st', n, e) = write_chunk st (chunk_of (b ∷ p)) in
      elim e [
        | some x ↦ some (st', written + n, some x)
        | none ↦ write_loop f st' (drop n (b ∷ p)) (written + n)
      ]

  -- Write of an initialized writer, on an empty slice and on a filled one.
  unfoldable pub write_bytes : S → List ℕ → Option (S × ℕ × Option WriteError)
  unfolding write_loop
  write_bytes st [] = let (st', n, e) = write_chunk st [] in some (st', 0, e)
  write_bytes st (b ∷ p) = write_loop (length (b ∷ p)) st (b ∷ p) 0

-- A Writer that is nil or holds no writer, and one over a sink.
pub data Writer (S : Type 0) : Type 0 where
  unset : Writer S
  over : Sink S → ℕ → Writer S

-- Write; the slice `none` is nil.
module _ {S : Type 0} where
  unfoldable pub write_to : Writer S → S → Option (List ℕ) → Option (S × ℕ × Option WriteError)
  write_to unset st p = some (st, 0, some uninitialized)
  write_to (over sink stream) st none = some (st, 0, none)
  write_to (over sink stream) st (some p) = write_bytes sink stream st p

pub data FrameError : Type 0 where
  read_failed : ReadError → FrameError
  unknown_stream frame_too_large : ℕ → FrameError

abbrev pub is_known_stream : ℕ → Bool
is_known_stream s = leb s systemerr

-- binary.BigEndian.Uint32(header[4:])
abbrev pub frame_size : List ℕ → ℕ
frame_size h = ((get_or h 4 0 * 256 + get_or h 5 0) * 256 + get_or h 6 0) * 256 + get_or h 7 0

unfoldable pub read_payload :
    ℕ → Result ReadError (List ℕ) × Source → Result FrameError Frame × Source
read_payload stream (err e, s) = (err (read_failed e), s)
read_payload stream (ok p, s) = (ok (record { stream = stream; payload = p }), s)

-- What ReadFrame does with the header.
unfoldable pub read_body : Result ReadError (List ℕ) × Source → Result FrameError Frame × Source
unfolding read_payload
read_body (err e, s) = (err (read_failed e), s)
read_body (ok h, s) =
    if not (is_known_stream (get_or h 0 0))
    then (err (unknown_stream (get_or h 0 0)), s)
    else if ltb default_max_frame_len (frame_size h)
    then (err (frame_too_large (frame_size h)), s)
    else read_payload (get_or h 0 0) (read_full (frame_size h) s)

unfoldable pub read_frame : Source → Result FrameError Frame × Source
unfolding read_body
read_frame s = read_body (read_full frame_header_len s)

pub data DemuxError : Type 0 where
  frame_error : FrameError → DemuxError
  daemon_error : List ℕ → DemuxError
  dst_failed : ℕ → DemuxError
  dst_short : DemuxError

-- io.EOF and io.ErrUnexpectedEOF end the stream; any other error is returned.
unfoldable pub demux_end : FrameError → Option DemuxError
demux_end (read_failed eof) = none
demux_end (read_failed unexpected_eof) = none
demux_end (read_failed (failed e)) = some (frame_error (read_failed (failed e)))
demux_end (unknown_stream n) = some (frame_error (unknown_stream n))
demux_end (frame_too_large n) = some (frame_error (frame_too_large n))

-- The two destinations are sinks over one state, so they may be one writer.
module _ {S : Type 0} (dst_out dst_err : Sink S) where
  -- One frame: the state, the bytes written, and the error that ends the loop.
  unfoldable pub deliver : S → Frame → S × ℕ × Option DemuxError
  deliver st f =
      if nat_beq f.stream systemerr
      then (st, 0, some (daemon_error f.payload))
      else let (st', n, e) = (if nat_beq f.stream stderr then dst_err else dst_out) st f.payload in
        elim e [
          | some x ↦ (st', n, some (dst_failed x))
          | none ↦ (st', n, if nat_beq n (length f.payload) then none else some dst_short)
        ]

  -- The loop of Demux; `none` is that the fuel ran out.
  unfoldable pub demux_loop : ℕ → S → Source → ℕ → Option (S × ℕ × Option DemuxError)
  unfolding demux_end
  demux_loop zero st s written = none
  demux_loop (suc f) st s written =
      let (r, s') = read_frame s in
      elim r [
        | err e ↦ some (st, written, demux_end e)
        | ok frame ↦
            let (st', n, e) = deliver st frame in
            elim e [
              | some x ↦ some (st', written + n, some x)
              | none ↦ demux_loop f st' s' (written + n)
            ]
      ]

  -- Every frame takes bytes off the source, so this fuel is enough.
  unfoldable pub demux : S → Source → Option (S × ℕ × Option DemuxError)
  unfolding demux_loop
  demux st s = demux_loop (suc (length s.pending)) st s 0
