-- ===== src/Frame/Reader/Parse.antt =====
-- What the reader of frame.rs does, as a parse of the bytes that have arrived.
use flowsplice_rust.Prelude.{
  ℕ, ◌≤◌, ◌≡◌, ◌≢◌, refl, sym, ap, ◌∙◌, ◌||◌, Bool-cases, inl, inr, false, List, [], ◌++◌,
  append_assoc, append-nil, nil_of_length, subst, ok, err, ltb, ◌==◌, if◌then◌else◌, length,
  length-append, take_front, drop_front, take, drop, concat, arith,
}
use flowsplice_rust.Prelude.Bytes.{Bytes, from_be_bytes}
use flowsplice_rust.Frame.{invalid_data}
use flowsplice_rust.Frame.Reader.Fill.{AllFull, FillMeets, fill_lem, fill_done}
use flowsplice_rust.Frame.Reader.{
  Reader, Filled, full, starved, at_eof, fill, Read, ready, pending, after_payload, size_payload,
  after_prefix, read_payload,
}

-- The frame at the front of a byte string: not all there, refused, or its payload and the rest.
pub data Parsed : Type 0 where
  incomplete invalid : Parsed
  frame : (payload rest : Bytes) → Parsed

parse_body : ℕ → ℕ → Bytes → Parsed
parse_body limit len body =
    if len == 0 || ltb limit len
    then invalid
    else if ltb (length body) len
    then incomplete
    else frame (take len body) (drop len body)

unfoldable pub parse : ℕ → Bytes → Parsed
unfolding parse_body
parse limit bytes =
    if ltb (length bytes) 4
    then incomplete
    else parse_body limit (from_be_bytes (take 4 bytes)) (drop 4 bytes)

-- What the reader holds of the current frame.
abbrev pub consumed : Reader → Bytes
consumed r = r.prefix ++ r.payload

-- The state between two polls: either the length is not known yet, or it is and lies in 1..=limit.
pub record IsValid (r : Reader) : Type 0 where
  pub prefix_fits : length r.prefix ≤ 4
  pub payload_fits : length r.payload ≤ r.payload_len
  pub sized : r.payload_len ≢ 0 → (length r.prefix ≡ 4) × (r.payload_len ≡ from_be_bytes r.prefix)
  pub bounded : r.payload_len ≤ r.limit

-- What a poll of the reader means for the bytes `total` that this frame and what follows it have
-- brought so far.
abbrev pub ReadMeets : ℕ → Bytes → Read Bytes → Type 0
ReadMeets limit total (r, cs, pending) =
    (parse limit total ≡ incomplete)
    × (consumed r ≡ total)
    × IsValid r
    × (r.limit ≡ limit)
    × (cs ≡ [])
ReadMeets limit total (r, cs, ready (ok p)) =
    (parse limit total ≡ frame p (concat cs)) × (r.limit ≡ limit) × AllFull cs
ReadMeets limit total (r, cs, ready (err e)) = (parse limit total ≡ invalid) × (e ≡ invalid_data)

-- The parse behind a complete length.
parse_sized :
    (limit : ℕ) (prefix rest : Bytes)
    → length prefix ≡ 4
    → parse limit (prefix ++ rest) ≡ parse_body limit (from_be_bytes prefix) rest
unfolding parse
parse_sized limit prefix rest e =
    let enough : ltb (length (prefix ++ rest)) 4 ≡ false =
      ground (arith, length-append prefix rest) in
    rw (enough, take_front 4 prefix rest (sym e), drop_front 4 prefix rest (sym e))

after_payload_lem :
    (r : Reader) (filled : Filled × List Bytes) (rest : Bytes)
    → r.payload_len ≢ 0
    → r.payload_len ≤ r.limit
    → length r.prefix ≡ 4
    → r.payload_len ≡ from_be_bytes r.prefix
    → FillMeets r.payload_len rest filled
    → ReadMeets r.limit (r.prefix ++ rest) (after_payload r filled)
unfolding after_payload parse_body
after_payload_lem r (full p, cs) rest some_len fits e sized (hp, whole, f) = (
  rw (parse_sized r.limit r.prefix rest e, ← sized, ← whole)
      (ground (
        arith,
        length-append p (concat cs),
        take_front r.payload_len p (concat cs),
        drop_front r.payload_len p (concat cs),
      )),
  refl,
  f,
)
after_payload_lem r (starved p, cs) rest some_len fits e sized (hp, whole, none_left) = (
  rw (parse_sized r.limit r.prefix rest e, ← sized, ← whole) (ground arith),
  ap (◌++◌ r.prefix) whole,
  record {
    prefix_fits = omega arith;
    payload_fits = omega arith;
    sized = λ _. (e, sized);
    bounded = fits;
  },
  refl,
  none_left,
)
after_payload_lem r (at_eof p, cs) rest some_len fits e sized h = absurd h

size_payload_lem :
    (r : Reader) (cs : List Bytes)
    → length r.prefix ≡ 4
    → r.payload_len ≡ 0
    → r.payload ≡ []
    → AllFull cs
    → ReadMeets r.limit (r.prefix ++ concat cs) (size_payload r cs)
unfolding size_payload
size_payload_lem r cs e unsized none_yet f =
    let len = from_be_bytes r.prefix in
    elim (Bool-cases (len == 0 || ltb r.limit len)) [
      | inl bad ↦
          rw (unsized, bad)
            (rw (parse_sized r.limit r.prefix (concat cs) e) (unfold parse_body in rw bad), refl)
      | inr good ↦
          rw (unsized, good)
            (after_payload_lem (record r { payload_len = len }) (fill len r.payload cs) (concat cs)
              (ground arith) (ground arith) e refl
              (rw none_yet (fill_lem len [] cs (omega arith) f)))
    ]

after_prefix_lem :
    (r : Reader) (filled : Filled × List Bytes) (total : Bytes)
    → r.payload_len ≡ 0
    → r.payload ≡ []
    → FillMeets 4 total filled
    → ReadMeets r.limit total (after_prefix r filled)
unfolding after_prefix parse
after_prefix_lem r (full p, cs) total unsized none_yet (e, whole, f) =
    rw (← whole) (size_payload_lem (record r { prefix = p }) cs e unsized none_yet f)
after_prefix_lem r (starved p, cs) total unsized none_yet (short, whole, none_left) = (
  ground arith,
  rw none_yet (append-nil p ∙ whole),
  record {
    prefix_fits = omega arith;
    payload_fits = rw (none_yet, unsized) (omega arith);
    sized = λ some_len. absurd (some_len unsized);
    bounded = omega arith;
  },
  refl,
  none_left,
)
after_prefix_lem r (at_eof p, cs) total unsized none_yet h = absurd h

size_payload_sized :
    (r : Reader) (cs : List Bytes)
    → IsValid r
    → r.payload_len ≢ 0
    → AllFull cs
    → ReadMeets r.limit (r.prefix ++ (r.payload ++ concat cs)) (size_payload r cs)
unfolding size_payload
size_payload_sized r cs v some_len f =
    let known : (r.payload_len == 0) ≡ false = ground arith in
    let (e, sized) = v.sized some_len in
    rw known (
      after_payload_lem r (fill r.payload_len r.payload cs) (r.payload ++ concat cs) some_len
        v.bounded e sized (fill_lem r.payload_len r.payload cs v.payload_fits f))

-- On every state that the reader keeps between polls and every way in which the bytes arrive, short
-- of the end of the stream, a poll of `read_payload` gives what a parse of the bytes so far gives:
-- pending with nothing lost and nothing left unread, the payload with exactly the bytes behind it
-- left, or the refusal of the length.
pub read_payload-parse :
    (r : Reader) (cs : List Bytes)
    → IsValid r
    → AllFull cs
    → ReadMeets r.limit (consumed r ++ concat cs) (read_payload r cs)
unfolding read_payload
read_payload-parse r cs v f = elim (Bool-cases (r.payload_len == 0)) [
  | inl unsized ↦
      let none_yet : r.payload ≡ [] = nil_of_length r.payload (ground arith) in
      subst (λ total. ReadMeets r.limit total (read_payload r cs))
        (ap (λ z. z ++ concat cs) (sym (append-nil r.prefix) ∙ ap (◌++◌ r.prefix) (sym none_yet)))
        (after_prefix_lem r (fill 4 r.prefix cs) (r.prefix ++ concat cs) (ground arith) none_yet
          (fill_lem 4 r.prefix cs v.prefix_fits f))
  | inr sized ↦
      let some_len : r.payload_len ≢ 0 = ground arith in
      rw
        (
          append_assoc r.prefix r.payload (concat cs),
          fill_done 4 r.prefix cs (omega (arith, (v.sized some_len).0)),
        )
        (unfold after_prefix in size_payload_sized r cs v some_len f)
]
