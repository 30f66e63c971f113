-- ===== src/Frame/RoundTrip.antt =====
-- The writer and the reader of frame.rs, end to end.
use flowsplice_rust.Prelude.{
  ℕ, ◌^◌, ◌≤◌, ◌<◌, ◌≡◌, refl, sym, ap, List, [], ◌++◌, append_assoc, ok, err, Result-cases, inl,
  inr, length, length-append, take_front, drop_front, concat, arith,
}
use flowsplice_rust.Prelude.Bytes.{
  Bytes, to_be_bytes, length-to_be_bytes, from_be_bytes-to_be_bytes,
}
use flowsplice_rust.Protocol.{DataFrame}
use flowsplice_rust.Frame.{
  Json, RoundTrips, DataFrameCodec, accepts, write_payload, encode_data_frame, write_encoded,
  write_data_frame, decode_data_frame,
}
use flowsplice_rust.Frame.Codec.{InRange, decode-encode}
use flowsplice_rust.Frame.Reader.{Reader, new, Read, ready, pending, read, read_payload, read-ready}
use flowsplice_rust.Frame.Reader.Fill.{AllFull}
use flowsplice_rust.Frame.Reader.Parse.{
  frame, parse, consumed, IsValid, ReadMeets, read_payload-parse,
}

-- The wire form of a payload.
abbrev wire_of : Bytes → Bytes
wire_of payload = to_be_bytes 4 (length payload) ++ payload

write_payload_lem :
    (payload wire : Bytes) (limit : ℕ)
    → write_payload accepts [] payload limit ≡ (wire, ok tt)
    → (0 < length payload)
      × (length payload ≤ limit)
      × (length payload < 256 ^ 4)
      × (wire_of payload ≡ wire)
unfolding write_payload
write_payload_lem payload wire limit h = ground arith

parse-wire :
    (limit : ℕ) (payload rest : Bytes)
    → 0 < length payload
    → length payload ≤ limit
    → length payload < 256 ^ 4
    → parse limit (wire_of payload ++ rest) ≡ frame payload rest
unfolding parse
parse-wire limit payload rest some_bytes fits small =
    let len = to_be_bytes 4 (length payload) in
    let e : 4 ≡ length len = sym (length-to_be_bytes 4 (length payload)) in
    rw (append_assoc len payload rest) (
      ground (
        arith,
        e,
        length-append len (payload ++ rest),
        length-append payload rest,
        take_front 4 len (payload ++ rest),
        drop_front 4 len (payload ++ rest),
        from_be_bytes-to_be_bytes 4 (length payload),
        take_front (length payload) payload rest refl,
        drop_front (length payload) payload rest refl,
      ))

-- A read that gave this frame, left exactly these bytes, and left the reader as a new one.
abbrev pub Received : {A : Type 0} → A → Bytes → ℕ → Read A → Type 0
Received value rest limit (r, cs, pending) = ⊥
Received value rest limit (r, cs, ready (err e)) = ⊥
Received value rest limit (r, cs, ready (ok v)) =
    (v ≡ value) × (concat cs ≡ rest) × AllFull cs × (r ≡ new limit)

-- A poll that means a complete frame is a payload, with the bytes behind it left.
payload_of_frame :
    (limit : ℕ) (total payload rest : Bytes) (x : Read Bytes)
    → parse limit total ≡ frame payload rest
    → ReadMeets limit total x
    → (r : Reader) × (cs : List Bytes) × (x ≡ (r, cs, ready (ok payload)))
      × (concat cs ≡ rest)
      × AllFull cs
      × (r.limit ≡ limit)
payload_of_frame limit total payload rest (r, cs, pending) e m = absurd (cc (e, m.0))
payload_of_frame limit total payload rest (r, cs, ready (err x)) e m = absurd (cc (e, m.0))
payload_of_frame limit total payload rest (r, cs, ready (ok p)) e m =
    (r, cs, ground (arith, e, m.0), ground (arith, e, m.0), m.2, m.1)

module _ (json : Json) (trips : RoundTrips json) where
  -- A frame that the writer accepts whole arrives as the same frame: whatever the codec, however the
  -- bytes are cut into chunks and over however many polls of the reader (whose state `r` holds what
  -- earlier, dropped polls have taken), it is decoded to the frame written, exactly the bytes behind
  -- it are left, and the reader is as new. The reader's limit is at least the writer's, its state is one
  -- it keeps between polls, the stream does not end before, ids have 128 bits and positions 64, and
  -- `serde_json` reads back what it wrote.
  pub read-write_data_frame :
      (codec : DataFrameCodec) (value : DataFrame) (limit : ℕ) (wire rest : Bytes) (r : Reader)
      (cs : List Bytes)
      → InRange value
      → write_data_frame json accepts [] value limit codec ≡ (wire, ok tt)
      → limit ≤ r.limit
      → IsValid r
      → AllFull cs
      → consumed r ++ concat cs ≡ wire ++ rest
      → Received value rest r.limit (read (decode_data_frame json codec) r cs)
  unfolding write_data_frame
  read-write_data_frame codec value limit wire rest r cs hr written fits v f arrived =
      elim (Result-cases (encode_data_frame json codec value)) [
        | inl (payload, e) ↦
            let w : write_payload accepts [] payload limit ≡ (wire, ok tt) =
              rw (e, write_encoded) at written in
            let (some_bytes, in_limit, small, same) = write_payload_lem payload wire limit w in
            let m = read_payload-parse r cs v f in
            let whole : parse r.limit (consumed r ++ concat cs) ≡ frame payload rest =
              rw (arrived, ← same)
                (parse-wire r.limit payload rest some_bytes (omega arith) small) in
            let (r', cs', x, left, f', same_limit) =
              payload_of_frame r.limit (consumed r ++ concat cs) payload rest (read_payload r cs)
                whole m in
            rw (read-ready (decode_data_frame json codec) r r' cs cs' payload x) (
              rw (decode-encode json trips codec value payload hr e)
                (refl, left, f', ap new same_limit))
        | inr (x, e) ↦ absurd (ground (arith, e, written, write_encoded))
      ]
