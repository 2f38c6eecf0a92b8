-- ===== src/Streams/Io.antt =====
-- The readers and writers of package io, as the stream code uses them.
use dockerdless.Base.{
  ℕ, ◌≤◌, ◌≡◌, Option, none, some, List, [], ◌∷◌, ◌++◌, length, take, drop, leb, if◌then◌else◌,
  Result, ok, err,
}

-- What a read reports: a clean end, an end inside the wanted bytes, or the reader's own error.
pub data ReadError : Type 0 where
  eof unexpected_eof : ReadError
  failed : ℕ → ReadError

-- A reader: the bytes that it will still deliver, and how it ends behind them. `none` is io.EOF.
pub record Source : Type 0 where
  pub pending : List ℕ
  pub failure : Option ℕ

-- io.ReadFull reports io.EOF only where no byte at all was read.
abbrev pub short_read : Source → ReadError
short_read s = elim s.failure [
  | some e ↦ failed e
  | none ↦ elim s.pending [ [] ↦ eof | b ∷ bs ↦ unexpected_eof ]
]

-- io.ReadFull into a buffer of n bytes.
unfoldable pub read_full : ℕ → Source → Result ReadError (List ℕ) × Source
read_full n s =
    if leb n (length s.pending)
    then (ok (take n s.pending), record s { pending = drop n s.pending })
    else (err (short_read s), record s { pending = [] })

-- A writer over a state: the bytes given, and the count and the error that come back.
abbrev pub Sink : Type 0 → Type 0
Sink S = S → List ℕ → S × ℕ × Option ℕ

-- The contract of io.Writer: the count is in range, and a short write has an error.
abbrev pub IsWriter : (S : Type 0) → Sink S → Type 0
IsWriter S write =
    (st : S) (p : List ℕ)
    → ((write st p).1 ≤ length p) × ((write st p).2 ≡ none → (write st p).1 ≡ length p)

-- A buffer takes everything.
abbrev pub buffer : Sink (List ℕ)
buffer st p = (st ++ p, length p, none)
