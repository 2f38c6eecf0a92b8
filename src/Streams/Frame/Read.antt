-- ===== src/Streams/Frame/Read.antt =====
-- ReadFrame of internal/streams/stdcopy.go: it gives back what encode_frame made, and how it refuses.
use dockerdless.Base.{
  ℕ, ◌+◌, ◌*◌, ◌/◌, ◌%◌, ◌≤◌, ◌≡◌, ap, ◌∙◌, Option, List, ◌∷◌, ◌++◌, length, arith, ok,
  length-append, take-append, drop-append,
}
use dockerdless.Streams.Io.{read_full}
use dockerdless.Streams.Frame.{
  encode_frame, read_frame, put_uint32, default_max_frame_len, systemerr, read_body,
}

-- The four bytes of the size read back.
pub put_uint32_size :
    (n : ℕ)
    → n ≤ default_max_frame_len
    → ((n / 16777216 % 256 * 256 + n / 65536 % 256) * 256 + n / 256 % 256) * 256 + n % 256 ≡ n
put_uint32_size n h = omega arith

pub read_full-append :
    (p rest : List ℕ) (failure : Option ℕ)
    → read_full (length p) (record { pending = p ++ rest; failure = failure })
      ≡ (ok p, record { pending = rest; failure = failure })
unfolding read_full
read_full-append p rest failure =
    ground (arith, length-append p rest, take-append p rest, drop-append p rest)

abbrev pub header : ℕ → List ℕ → List ℕ
header stream p = stream % 256 ∷ 0 ∷ 0 ∷ 0 ∷ put_uint32 (length p)

pub read_body-header :
    (stream : ℕ) (p rest : List ℕ) (failure : Option ℕ)
    → stream ≤ systemerr
    → length p ≤ default_max_frame_len
    → read_body (ok (header stream p), record { pending = p ++ rest; failure = failure })
      ≡ (ok (record { stream = stream; payload = p }), record { pending = rest; failure = failure })
unfolding read_body
read_body-header stream p rest failure known small =
    ground (arith, put_uint32_size (length p) small, read_full-append p rest failure)

-- A frame of a known stream and of an admissible size is read back from the front of the source.
pub read_frame-encode_frame :
    (stream : ℕ) (p rest : List ℕ) (failure : Option ℕ)
    → stream ≤ systemerr
    → length p ≤ default_max_frame_len
    → read_frame (record { pending = encode_frame stream p ++ rest; failure = failure })
      ≡ (ok (record { stream = stream; payload = p }), record { pending = rest; failure = failure })
unfolding read_frame encode_frame
read_frame-encode_frame stream p rest failure known small =
    ap read_body (read_full-append (header stream p) (p ++ rest) failure)
    ∙ read_body-header stream p rest failure known small
