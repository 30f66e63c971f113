-- ===== src/Frame/Runs.antt =====
-- Runs of the frame codec and of the reader on frames that arrive in pieces.
use flowsplice_rust.Prelude.{
  ◌≡◌, refl, [], ◌∷◌, ◌++◌, Option, none, some, some_inj, subst, ok, arith,
}
use flowsplice_rust.Prelude.Bytes.{Bytes, to_be_bytes, from_be_bytes}
use flowsplice_rust.Protocol.{
  DataFrame, open_flow, open_ok, open_error, race, race_ack, race_duplicate, stream_data, ack,
  duplicate, datagram, fin, fin_ack, close, ping, pong,
}
use flowsplice_rust.Frame.{
  Json, RoundTrips, binary_v1, json_codec, write_data_frame, decode_data_frame, encode_data_frame,
  encode_binary_payload, write_encoded, write_payload, send,
}
use flowsplice_rust.Frame.Codec.{decode-encode}
use flowsplice_rust.Frame.RoundTrip.{Received, read-write_data_frame}
use flowsplice_rust.Frame.Reader.{
  Reader, new, read, read_payload, fill, finish, after_prefix, size_payload, after_payload,
}
use flowsplice_rust.Frame.Reader.Parse.{IsValid, ReadMeets, read_payload-parse}
use flowsplice_rust.Frame.Reader.Resume.{read-resume}

-- A text for the heartbeats only.
abbrev ping_text : DataFrame → Option Bytes
ping_text (ping nonce) = some (nonce ∷ [])
ping_text _ = none

abbrev text_ping : Bytes → Option DataFrame
text_ping (nonce ∷ []) = some (ping nonce)
text_ping _ = none

abbrev json : Json
json = record { to_vec = ping_text; from_slice = text_ping }

text-ping :
    (value : DataFrame) (bytes : Bytes)
    → ping_text value ≡ some bytes
    → text_ping bytes ≡ some value
text-ping (ping nonce) bytes h = subst (λ b. text_ping b ≡ some (ping nonce)) (some_inj h) refl
text-ping (open_flow _ _ _ _ _) bytes h = cc
text-ping (open_ok _ _ _ _ _) bytes h = cc
text-ping (open_error _ _ _) bytes h = cc
text-ping (race _ _ _) bytes h = cc
text-ping (race_ack _ _ _) bytes h = cc
text-ping (race_duplicate _ _ _) bytes h = cc
text-ping (stream_data _ _ _) bytes h = cc
text-ping (ack _ _) bytes h = cc
text-ping (duplicate _ _ _) bytes h = cc
text-ping (datagram _ _ _) bytes h = cc
text-ping (fin _ _) bytes h = cc
text-ping (fin_ack _ _) bytes h = cc
text-ping (close _ _) bytes h = cc
text-ping (pong _) bytes h = cc

abbrev trips : RoundTrips json
trips = record { round_trip = text-ping }

new-IsValid : IsValid (new 64)
new-IsValid = record {
  prefix_fits = omega arith;
  payload_fits = omega arith;
  sized = λ e. absurd (e refl);
  bounded = omega arith;
}

abbrev wire : Bytes
wire = 0 ∷ 0 ∷ 0 ∷ 27 ∷ 1 ∷ (to_be_bytes 16 300 ++ (to_be_bytes 8 5 ++ 42 ∷ 43 ∷ []))

decode-encode_example :
    decode_data_frame json binary_v1 (2 ∷ (to_be_bytes 16 300 ++ (to_be_bytes 8 5 ++ 42 ∷ [])))
    ≡ ok (datagram 300 5 (42 ∷ []))
unfolding encode_data_frame encode_binary_payload
decode-encode_example =
    decode-encode json trips binary_v1 (datagram 300 5 (42 ∷ []))
      (2 ∷ (to_be_bytes 16 300 ++ (to_be_bytes 8 5 ++ 42 ∷ []))) (omega arith, omega arith) refl

read-write_example : Received (stream_data 300 5 (42 ∷ 43 ∷ [])) (9 ∷ []) 64 (
    read (decode_data_frame json binary_v1) (new 64) (
      (0 ∷ 0 ∷ [])
      ∷ ((0 ∷ 27 ∷ 1 ∷ (to_be_bytes 16 300 ++ (to_be_bytes 8 5 ++ 42 ∷ 43 ∷ 9 ∷ []))) ∷ [])))
unfolding write_data_frame write_encoded write_payload send encode_data_frame encode_binary_payload
    to_be_bytes
read-write_example =
    read-write_data_frame json trips binary_v1 (stream_data 300 5 (42 ∷ 43 ∷ [])) 64 wire (9 ∷ [])
      (new 64)
      ((0 ∷ 0 ∷ [])
        ∷ ((0 ∷ 27 ∷ 1 ∷ (to_be_bytes 16 300 ++ (to_be_bytes 8 5 ++ 42 ∷ 43 ∷ 9 ∷ []))) ∷ []))
      (omega arith, omega arith) refl (omega arith) new-IsValid ((λ e. cc), ((λ e. cc), tt)) refl

read_payload_example :
    ReadMeets 64
      (0 ∷ 0 ∷ 0 ∷ 2 ∷ 8 ∷ [])
      (read_payload (new 64) ((0 ∷ 0 ∷ []) ∷ ((0 ∷ 2 ∷ 8 ∷ []) ∷ [])))
read_payload_example =
    read_payload-parse (new 64) ((0 ∷ 0 ∷ []) ∷ ((0 ∷ 2 ∷ 8 ∷ []) ∷ [])) new-IsValid
      ((λ e. cc), ((λ e. cc), tt))

abbrev half : Reader
half = record { limit = 64; prefix = 0 ∷ 0 ∷ 0 ∷ 1 ∷ []; payload_len = 1; payload = [] }

read-resume_example :
    read (decode_data_frame json json_codec) half ((8 ∷ []) ∷ [])
    ≡ read
        (decode_data_frame json json_codec)
        (new 64)
        ((0 ∷ 0 ∷ []) ∷ ((0 ∷ 1 ∷ []) ∷ ((8 ∷ []) ∷ [])))
unfolding read read_payload fill finish after_prefix size_payload after_payload from_be_bytes
read-resume_example =
    read-resume (decode_data_frame json json_codec) (new 64) half
      ((0 ∷ 0 ∷ []) ∷ ((0 ∷ 1 ∷ []) ∷ [])) [] ((8 ∷ []) ∷ []) refl
