-- ===== src/Frame/Reader.antt =====
-- The stateful reader of frame.rs. Its transport is a list of chunks, each what one poll of the
-- underlying `read` has at hand; the empty chunk is the end of the stream (a read of 0 bytes), and an
-- exhausted list is a read that does not complete, where the caller may drop the future.
pub mod Fill
pub mod Parse
pub mod Resume
use flowsplice_rust.Prelude.{
  ℕ, ◌≡◌, ◌-◌, ◌||◌, List, [], ◌∷◌, ◌++◌, Result, ok, err, ltb, leb, ◌==◌, if◌then◌else◌, length,
  is_empty, take, drop,
}
use flowsplice_rust.Prelude.Bytes.{Bytes, from_be_bytes}
use flowsplice_rust.Frame.{IoError, invalid_data, unexpected_eof, timed_out}

-- `prefix` is `prefix[..prefix_read]`, `payload` is `payload[..payload_read]`, and `payload_len` is
-- `payload.len()`, 0 until the length is known.
pub record Reader : Type 0 where
  pub limit : ℕ
  pub prefix : Bytes
  pub payload_len : ℕ
  pub payload : Bytes

abbrev pub new : ℕ → Reader
new limit = record { limit = limit; prefix = []; payload_len = 0; payload = [] }

-- What became of a buffer that is read up to a given length.
pub data Filled : Type 0 where
  full starved at_eof : Bytes → Filled

-- `while read < buffer.len() { read(&mut buffer[read..]) }`
unfoldable pub fill : ℕ → Bytes → List Bytes → Filled × List Bytes
fill want got [] = if ltb (length got) want then (starved got, []) else (full got, [])
fill want got (c ∷ cs) =
    let rest = fill want (got ++ c) cs in
    let space = want - length got in
    if leb want (length got)
    then (full got, c ∷ cs)
    else if is_empty c
    then (at_eof got, c ∷ cs)
    else if ltb space (length c)
    then (full (got ++ take space c), drop space c ∷ cs)
    else rest

pub data Poll (A : Type 0) : Type 0 where
  ready : Result IoError A → Poll A
  pending : Poll A

-- The reader and the transport after a poll of the future, and what the poll gave.
abbrev pub Read : Type 0 → Type 0
Read A = Reader × List Bytes × Poll A

unfoldable pub after_payload : Reader → Filled × List Bytes → Read Bytes
after_payload r (starved p, cs) = (record r { payload = p }, cs, pending)
after_payload r (at_eof p, cs) = (record r { payload = p }, cs, ready (err unexpected_eof))
after_payload r (full p, cs) = (record r { payload = p }, cs, ready (ok p))

-- `payload` is empty exactly until it is sized.
unfoldable pub size_payload : Reader → List Bytes → Read Bytes
unfolding after_payload
size_payload r cs =
    let len = from_be_bytes r.prefix in
    if r.payload_len == 0
    then (if len == 0 || ltb r.limit len
        then (r, cs, ready (err invalid_data))
        else after_payload (record r { payload_len = len }) (fill len r.payload cs))
    else after_payload r (fill r.payload_len r.payload cs)

unfoldable pub after_prefix : Reader → Filled × List Bytes → Read Bytes
unfolding size_payload
after_prefix r (starved p, cs) = (record r { prefix = p }, cs, pending)
after_prefix r (at_eof p, cs) = (record r { prefix = p }, cs, ready (err unexpected_eof))
after_prefix r (full p, cs) = size_payload (record r { prefix = p }) cs

unfoldable pub read_payload : Reader → List Bytes → Read Bytes
unfolding after_prefix
read_payload r cs = after_prefix r (fill 4 r.prefix cs)

unfoldable pub finish_frame : Reader → Reader
finish_frame r = record r { prefix = []; payload_len = 0; payload = [] }

-- An error or a pending read returns before `finish_frame`; decoding comes before it and does not
-- prevent it.
unfoldable pub finish : {A : Type 0} → (Bytes → Result IoError A) → Read Bytes → Read A
unfolding finish_frame
finish decode (r, cs, pending) = (r, cs, pending)
finish decode (r, cs, ready (err e)) = (r, cs, ready (err e))
finish decode (r, cs, ready (ok p)) = (finish_frame r, cs, ready (decode p))

-- `JsonFrameReader::read` and `DataFrameReader::read`, by their decoders.
unfoldable pub read : {A : Type 0} → (Bytes → Result IoError A) → Reader → List Bytes → Read A
unfolding finish
read decode r cs = finish decode (read_payload r cs)

unfoldable pub expire : {A : Type 0} → Read A → Read A
expire (r, cs, pending) = (r, cs, ready (err timed_out))
expire (r, cs, ready x) = (r, cs, ready x)

-- `read_with_timeout`, when the deadline passes after these chunks.
unfoldable pub read_with_timeout :
    {A : Type 0} → (Bytes → Result IoError A) → Reader → List Bytes → Read A
unfolding expire
read_with_timeout decode r cs = expire (read decode r cs)

-- A whole payload is decoded and the reader is as new.
pub read-ready :
    {A : Type 0} (decode : Bytes → Result IoError A) (r r' : Reader) (cs cs' : List Bytes)
    (p : Bytes)
    → read_payload r cs ≡ (r', cs', ready (ok p))
    → read decode r cs ≡ (new r'.limit, cs', ready (decode p))
unfolding read
read-ready decode r r' cs cs' p e = rw e
