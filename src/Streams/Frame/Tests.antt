-- ===== src/Streams/Frame/Tests.antt =====
-- Runs of internal/streams/stdcopy.go on short payloads.
use dockerdless.Base.{ℕ, ◌≡◌, Option, none, some, List, [], ◌∷◌, ◌++◌, length, take, ok, err, arith}
use dockerdless.Streams.Io.{Sink, eof}
use dockerdless.Streams.Frame.{
  stdout, stderr, encode_frame, read_frame, read_failed, demux, DemuxError,
}
use dockerdless.Streams.Frame.Read.{read_frame-encode_frame}
use dockerdless.Streams.Frame.Total.{demux_total}
use dockerdless.Streams.Frame.Mux.{
  Outputs, to_out, to_err, rest_of, Message, mux, outputs, payload_total,
}
use dockerdless.Streams.Frame.Truncated.{read_frame_cut, demux-mux}

-- A writer that takes at most ten bytes of a call, and then fails.
abbrev narrow : Sink (List ℕ)
narrow st p = (st ++ take 10 p, length (take 10 p), some 5)

read_frame-encode_frame_example :
    read_frame (record { pending = encode_frame stderr (7 ∷ 8 ∷ []) ++ 1 ∷ []; failure = none }) ≡ (
      ok (record { stream = stderr; payload = 7 ∷ 8 ∷ [] }),
      record { pending = 1 ∷ []; failure = none },
    )
read_frame-encode_frame_example =
    read_frame-encode_frame stderr (7 ∷ 8 ∷ []) (1 ∷ []) none (omega arith) (omega arith)

demux_total_example :
    (r : Outputs × ℕ × Option DemuxError) × (demux to_out to_err
        ([], [])
        (rest_of (1 ∷ 0 ∷ 0 ∷ 0 ∷ 0 ∷ 0 ∷ 0 ∷ 2 ∷ 65 ∷ []))
      ≡ some r)
demux_total_example =
    demux_total to_out to_err ([], []) (rest_of (1 ∷ 0 ∷ 0 ∷ 0 ∷ 0 ∷ 0 ∷ 0 ∷ 2 ∷ 65 ∷ []))

read_frame_cut_example :
    (read_frame (rest_of (take 8 (encode_frame stdout (7 ∷ 8 ∷ []))))).0 ≡ err (read_failed eof)
read_frame_cut_example =
    read_frame_cut stdout (7 ∷ 8 ∷ []) 8 (omega arith) (omega arith) (omega arith)

abbrev messages : List Message
messages =
    record { stream = stdout; payload = 7 ∷ 8 ∷ [] }
    ∷ record { stream = stderr; payload = 9 ∷ [] }
    ∷ record { stream = stdout; payload = 6 ∷ [] }
    ∷ []

demux-mux_example :
    (bytes : List ℕ) × (mux [] messages ≡ some bytes)
    × (demux to_out to_err ([], []) (rest_of (bytes ++ take 3 (encode_frame stderr (5 ∷ []))))
        ≡ some (outputs messages ([], []), payload_total messages, none))
demux-mux_example =
    demux-mux messages stderr (5 ∷ []) 3 (omega arith, (omega arith, (omega arith, tt)))
      (omega arith) (omega arith) (omega arith)
