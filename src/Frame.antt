-- ===== src/Frame.antt =====
-- internal/flowsplice-core/src/frame.rs: length-prefixed frames, their JSON and binary codecs, and
-- the writer. The children hold the reader that survives cancellation, and the proofs.
pub mod Reader
pub mod Codec
pub mod RoundTrip
mod Runs
use flowsplice_rust.Prelude.{
  ℕ, ◌+◌, ◌≡◌, ◌||◌, List, [], ◌∷◌, ◌++◌, Option, none, some, Result, ok, err, ◌>>=◌, bail_if,
  ok_or, ltb, leb, ◌==◌, if◌then◌else◌, length, is_empty, take, drop,
}
use flowsplice_rust.Prelude.Bytes.{Bytes, to_be_bytes, from_be_bytes}
use flowsplice_rust.Protocol.{
  DataFrame, stream_data, datagram, Uuid, max_data_payload, data_protocol_binary_v1,
}

-- The kinds of `io::Error` that frame.rs and the transport give.
pub data IoError : Type 0 where
  invalid_data unexpected_eof timed_out transport_failed : IoError

-- `serde_json` at the type `DataFrame`: what it writes, and what it reads.
pub record Json : Type 0 where
  pub to_vec : DataFrame → Option Bytes
  pub from_slice : Bytes → Option DataFrame

-- `serde_json` reads back what it wrote.
pub record RoundTrips (json : Json) : Type 0 where
  pub round_trip :
      (value : DataFrame) (bytes : Bytes)
      → json.to_vec value ≡ some bytes
      → json.from_slice bytes ≡ some value

pub data DataFrameCodec : Type 0 where
  json_codec binary_v1 : DataFrameCodec

abbrev pub negotiate : ℕ → DataFrameCodec
negotiate peer_version = if leb data_protocol_binary_v1 peer_version then binary_v1 else json_codec

abbrev pub version : DataFrameCodec → ℕ
version json_codec = 0
version binary_v1 = data_protocol_binary_v1

-- How the destination takes the bytes of one `write_all` and `flush` under the write deadline: all
-- of them, or only the first `n` before it stalls or fails.
pub data Transport : Type 0 where
  accepts : Transport
  stalls_after fails_after : (n : ℕ) → Transport

-- What the destination holds afterwards, and the result of the write.
abbrev pub Written : Type 0
Written = Bytes × Result IoError (Unit {0})

send : Transport → Bytes → Bytes → Written
send accepts sent frame = (sent ++ frame, ok tt)
send (stalls_after n) sent frame = (sent ++ take n frame, err timed_out)
send (fails_after n) sent frame = (sent ++ take n frame, err transport_failed)

-- `u32::try_from(payload.len())` fails beyond 2^32 - 1.
pub write_payload : Transport → Bytes → Bytes → ℕ → Written
unfolding send
write_payload t sent payload limit =
    if is_empty payload || ltb limit (length payload)
    then (sent, err invalid_data)
    else if leb (length payload) 4294967295
    then send t sent (to_be_bytes 4 (length payload) ++ payload)
    else (sent, err invalid_data)

pub encode_binary_payload : ℕ → Uuid → ℕ → Bytes → Result IoError Bytes
encode_binary_payload marker flow_id position bytes =
    if ltb max_data_payload (length bytes)
    then err invalid_data
    else ok (marker ∷ (to_be_bytes 16 flow_id ++ (to_be_bytes 8 position ++ bytes)))

module _ (json : Json) where
  open json use {to_vec, from_slice}

  encode_control : DataFrameCodec → DataFrame → Result IoError Bytes
  encode_control json_codec value = ok_or (to_vec value) invalid_data
  encode_control binary_v1 value = do text ← ok_or (to_vec value) invalid_data; ok (0 ∷ text)

  -- The payload that `write_data_frame_inner` computes.
  pub encode_data_frame : DataFrameCodec → DataFrame → Result IoError Bytes
  unfolding encode_control
  encode_data_frame binary_v1 (stream_data flow_id offset bytes) =
      encode_binary_payload 1 flow_id offset bytes
  encode_data_frame binary_v1 (datagram flow_id sequence bytes) =
      encode_binary_payload 2 flow_id sequence bytes
  encode_data_frame codec value = encode_control codec value

  write_encoded : Transport → Bytes → ℕ → Result IoError Bytes → Written
  write_encoded t sent limit (ok payload) = write_payload t sent payload limit
  write_encoded t sent limit (err e) = (sent, err e)

  pub write_data_frame : Transport → Bytes → DataFrame → ℕ → DataFrameCodec → Written
  unfolding write_encoded
  write_data_frame t sent value limit codec =
      write_encoded t sent limit (encode_data_frame codec value)

  pub write_json : Transport → Bytes → DataFrame → ℕ → Written
  unfolding write_encoded
  write_json t sent value limit = write_encoded t sent limit (ok_or (to_vec value) invalid_data)

  -- The body of a binary frame behind its marker.
  decode_binary : (Uuid → ℕ → Bytes → DataFrame) → Bytes → Result IoError DataFrame
  decode_binary frame body =
      if ltb (length body) 24
      then err invalid_data
      else if ltb max_data_payload (length (drop 24 body))
      then err invalid_data
      else ok (
          frame (from_be_bytes (take 16 body)) (from_be_bytes (take 8 (drop 16 body)))
            (drop 24 body))

  decode_marked : ℕ → Bytes → Result IoError DataFrame
  unfolding decode_binary
  decode_marked marker body =
      if marker == 0
      then ok_or (from_slice body) invalid_data
      else if marker == 1
      then decode_binary stream_data body
      else if marker == 2
      then decode_binary datagram body
      else err invalid_data

  pub decode_data_frame : DataFrameCodec → Bytes → Result IoError DataFrame
  unfolding decode_marked
  decode_data_frame json_codec payload = ok_or (from_slice payload) invalid_data
  decode_data_frame binary_v1 [] = err invalid_data
  decode_data_frame binary_v1 (marker ∷ body) = decode_marked marker body
