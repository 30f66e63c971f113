-- ===== src/Frame/Codec.antt =====
-- The codecs of frame.rs: what `encode_data_frame` writes, `decode_data_frame` reads.
use flowsplice_rust.Prelude.{
  ℕ, ◌^◌, ◌≤◌, ◌<◌, ◌≡◌, sym, ◌∷◌, ◌++◌, append_assoc, ok, length, length-append, drop, take_front,
  drop_front, Option-cases, inl, inr, arith,
}
use flowsplice_rust.Prelude.Bytes.{
  Bytes, to_be_bytes, length-to_be_bytes, from_be_bytes-to_be_bytes,
}
use flowsplice_rust.Protocol.{DataFrame, Uuid, stream_data, datagram, max_data_payload}
use flowsplice_rust.Frame.{
  Json, RoundTrips, DataFrameCodec, json_codec, binary_v1, encode_binary_payload, encode_control,
  encode_data_frame, decode_binary, decode_data_frame,
}

-- The ranges of a `Uuid` and a `u64` where the binary codec writes them.
abbrev pub InRange : DataFrame → Type 0
InRange (stream_data flow_id offset bytes) = (flow_id < 256 ^ 16) × (offset < 256 ^ 8)
InRange (datagram flow_id sequence bytes) = (flow_id < 256 ^ 16) × (sequence < 256 ^ 8)
InRange _ = Unit {0}

encode_binary_payload_lem :
    (marker flow_id position : ℕ) (bytes payload : Bytes)
    → encode_binary_payload marker flow_id position bytes ≡ ok payload
    → (length bytes ≤ max_data_payload)
      × (marker ∷ (to_be_bytes 16 flow_id ++ (to_be_bytes 8 position ++ bytes)) ≡ payload)
unfolding encode_binary_payload
encode_binary_payload_lem marker flow_id position bytes payload h = ground arith

module _ (json : Json) where
  decode_binary-encode :
      (frame : Uuid → ℕ → Bytes → DataFrame) (flow_id position : ℕ) (bytes : Bytes)
      → flow_id < 256 ^ 16
      → position < 256 ^ 8
      → length bytes ≤ max_data_payload
      → decode_binary json frame (to_be_bytes 16 flow_id ++ (to_be_bytes 8 position ++ bytes))
        ≡ ok (frame flow_id position bytes)
  unfolding decode_binary
  decode_binary-encode frame flow_id position bytes hf hp fits =
      let id = to_be_bytes 16 flow_id in
      let pos = to_be_bytes 8 position in
      let id_length : 16 ≡ length id = sym (length-to_be_bytes 16 flow_id) in
      let pos_length : 8 ≡ length pos = sym (length-to_be_bytes 8 position) in
      let behind : drop 24 (id ++ (pos ++ bytes)) ≡ bytes =
        rw (← append_assoc id pos bytes)
          (drop_front 24 (id ++ pos) bytes (omega (arith, length-append id pos))) in
      ground (
        arith,
        behind,
        length-append id (pos ++ bytes),
        length-append pos bytes,
        take_front 16 id (pos ++ bytes),
        drop_front 16 id (pos ++ bytes),
        take_front 8 pos bytes,
        from_be_bytes-to_be_bytes 16 flow_id,
        from_be_bytes-to_be_bytes 8 position,
        id_length,
        pos_length,
      )

  module _ (trips : RoundTrips json) where
    decode-encode_control :
        (codec : DataFrameCodec) (value : DataFrame) (payload : Bytes)
        → encode_control json codec value ≡ ok payload
        → decode_data_frame json codec payload ≡ ok value
    unfolding encode_control decode_data_frame
    decode-encode_control json_codec value payload h = elim (Option-cases (json.to_vec value)) [
      | inl e ↦ absurd (ground (arith, h, e))
      | inr (text, e) ↦
          let same : text ≡ payload = ground (arith, h, e) in
          ground (arith, trips.round_trip value text, same)
    ]
    decode-encode_control binary_v1 value payload h = elim (Option-cases (json.to_vec value)) [
      | inl e ↦ absurd (ground (arith, h, e))
      | inr (text, e) ↦
          let same : 0 ∷ text ≡ payload = ground (arith, h, e) in
          rw (← same) (ground (arith, trips.round_trip value text))
    ]

    -- What the codec encodes from a frame with a 128-bit flow id and a 64-bit position, it decodes to
    -- the same frame, for the binary markers and for the JSON frames under either codec, given that
    -- `serde_json` reads back what it wrote.
    pub decode-encode :
        (codec : DataFrameCodec) (value : DataFrame) (payload : Bytes)
        → InRange value
        → encode_data_frame json codec value ≡ ok payload
        → decode_data_frame json codec payload ≡ ok value
    unfolding encode_data_frame
    decode-encode json_codec value payload hr h = decode-encode_control json_codec value payload h
    decode-encode binary_v1 (stream_data flow_id offset bytes) payload hr h =
        let (fits, same) = encode_binary_payload_lem 1 flow_id offset bytes payload h in
        rw (← same) (
          unfold decode_data_frame in
          decode_binary-encode stream_data flow_id offset bytes hr.0 hr.1 fits)
    decode-encode binary_v1 (datagram flow_id sequence bytes) payload hr h =
        let (fits, same) = encode_binary_payload_lem 2 flow_id sequence bytes payload h in
        rw (← same) (
          unfold decode_data_frame in
          decode_binary-encode datagram flow_id sequence bytes hr.0 hr.1 fits)
    decode-encode binary_v1 value payload hr h = decode-encode_control binary_v1 value payload h
