-- ===== src/Frame/Reader/Resume.antt =====
-- Dropping the read future of frame.rs between polls.
use flowsplice_rust.Prelude.{
  ℕ, ◌≡◌, ◌≢◌, refl, sym, ap, ◌∙◌, ◌||◌, Bool-cases, inl, inr, true, false, List, ◌++◌, Result, ok,
  err, ltb, ◌==◌, arith,
}
use flowsplice_rust.Prelude.Bytes.{Bytes, from_be_bytes}
use flowsplice_rust.Frame.{IoError, invalid_data, timed_out}
use flowsplice_rust.Frame.Reader.{
  Reader, Filled, full, starved, at_eof, fill, Read, ready, pending, after_payload, size_payload,
  after_prefix, read_payload, finish, read, read_with_timeout, expire,
}
use flowsplice_rust.Frame.Reader.Fill.{fill_done, fill_starved, fill_full}

-- What `prefix` or `payload` held is overwritten by what a poll has read.
after_prefix_overwrites :
    (r : Reader) (p : Bytes) (x : Filled × List Bytes)
    → after_prefix (record r { prefix = p }) x ≡ after_prefix r x
unfolding after_prefix
after_prefix_overwrites r p (full q, cs) = refl
after_prefix_overwrites r p (starved q, cs) = refl
after_prefix_overwrites r p (at_eof q, cs) = refl

after_payload_overwrites :
    (r : Reader) (p : Bytes) (x : Filled × List Bytes)
    → after_payload (record r { payload = p }) x ≡ after_payload r x
unfolding after_payload
after_payload_overwrites r p (full q, cs) = refl
after_payload_overwrites r p (starved q, cs) = refl
after_payload_overwrites r p (at_eof q, cs) = refl

-- A poll is pending in the payload only where the payload has starved.
after_payload_pending :
    (r r' : Reader) (x : Filled × List Bytes) (cs' : List Bytes)
    → after_payload r x ≡ (r', cs', pending)
    → (p : Bytes) × (cs : List Bytes) × (x ≡ (starved p, cs)) × (record r { payload = p } ≡ r')
unfolding after_payload
after_payload_pending r r' (starved p, cs) cs' h = (p, cs, refl, ground arith)
after_payload_pending r r' (full p, cs) cs' h = absurd (ground arith)
after_payload_pending r r' (at_eof p, cs) cs' h = absurd (ground arith)

-- The rest of a payload is read as if it had come at once.
after_payload_resume :
    (r r' : Reader) (want : ℕ) (cs cs' more : List Bytes)
    → after_payload r (fill want r.payload cs) ≡ (r', cs', pending)
    → (r'.prefix ≡ r.prefix)
      × (r'.payload_len ≡ r.payload_len)
      × (after_payload r' (fill want r'.payload more)
          ≡ after_payload r (fill want r.payload (cs ++ more)))
after_payload_resume r r' want cs cs' more h =
    let (p, left, e, same) = after_payload_pending r r' (fill want r.payload cs) cs' h in
    rw (← same) (
      refl,
      refl,
      after_payload_overwrites r p (fill want p more)
          ∙ ap (after_payload r) (fill_starved want r.payload p cs left more e),
    )

size_payload_sized :
    (r : Reader) (n : ℕ) (cs : List Bytes)
    → r.payload_len ≡ n
    → n ≢ 0
    → size_payload r cs ≡ after_payload r (fill n r.payload cs)
unfolding size_payload
size_payload_sized r n cs e some_len =
    let known : (r.payload_len == 0) ≡ false = ground arith in
    rw known (ap (λ k. after_payload r (fill k r.payload cs)) e)

size_payload_new :
    (r : Reader) (cs : List Bytes)
    → r.payload_len ≡ 0
    → (from_be_bytes r.prefix == 0 || ltb r.limit (from_be_bytes r.prefix)) ≡ false
    → size_payload r cs
      ≡ after_payload
          (record r { payload_len = from_be_bytes r.prefix })
          (fill (from_be_bytes r.prefix) r.payload cs)
unfolding size_payload
size_payload_new r cs unsized good = rw (unsized, good)

size_payload_refuses :
    (r : Reader) (cs : List Bytes)
    → r.payload_len ≡ 0
    → (from_be_bytes r.prefix == 0 || ltb r.limit (from_be_bytes r.prefix)) ≡ true
    → size_payload r cs ≡ (r, cs, ready (err invalid_data))
unfolding size_payload
size_payload_refuses r cs unsized bad = rw (unsized, bad)

-- The same, from the state with the length known.
resume_sized :
    (r r' : Reader) (n : ℕ) (cs cs' more : List Bytes)
    → r.payload_len ≡ n
    → n ≢ 0
    → after_payload r (fill n r.payload cs) ≡ (r', cs', pending)
    → (r'.prefix ≡ r.prefix)
      × (size_payload r' more ≡ after_payload r (fill n r.payload (cs ++ more)))
resume_sized r r' n cs cs' more e some_len h =
    let (same_prefix, same_len, resumed) = after_payload_resume r r' n cs cs' more h in
    (same_prefix, size_payload_sized r' n more (same_len ∙ e) some_len ∙ resumed)

size_payload_resume :
    (r r' : Reader) (cs cs' more : List Bytes)
    → size_payload r cs ≡ (r', cs', pending)
    → (r'.prefix ≡ r.prefix) × (size_payload r' more ≡ size_payload r (cs ++ more))
size_payload_resume r r' cs cs' more h = elim (Bool-cases (r.payload_len == 0)) [
  | inl unsized ↦
      let none_yet : r.payload_len ≡ 0 = ground arith in
      let len = from_be_bytes r.prefix in
      elim (Bool-cases (len == 0 || ltb r.limit len)) [
        | inl bad ↦ absurd (cc (h, size_payload_refuses r cs none_yet bad))
        | inr good ↦
            let (p, e) =
              resume_sized (record r { payload_len = len }) r' len cs cs' more refl (ground arith)
                (sym (size_payload_new r cs none_yet good) ∙ h) in
            (p, e ∙ sym (size_payload_new r (cs ++ more) none_yet good))
      ]
  | inr sized ↦
      let some_len : r.payload_len ≢ 0 = ground arith in
      let known = λ (ds : List Bytes). size_payload_sized r r.payload_len ds refl some_len in
      let (p, e) = resume_sized r r' r.payload_len cs cs' more refl some_len (sym (known cs) ∙ h) in
      (p, e ∙ sym (known (cs ++ more)))
]

-- The prefix stage, over what became of the prefix.
after_prefix_resume :
    (r r' : Reader) (x : Filled × List Bytes) (cs cs' more : List Bytes)
    → fill 4 r.prefix cs ≡ x
    → after_prefix r x ≡ (r', cs', pending)
    → read_payload r' more ≡ read_payload r (cs ++ more)
unfolding read_payload
after_prefix_resume r r' (starved p, ds) cs cs' more e h =
    let same : record r { prefix = p } ≡ r' = unfold after_prefix in ground arith in
    rw (← same) (
      after_prefix_overwrites r p (fill 4 p more)
      ∙ ap (after_prefix r) (fill_starved 4 r.prefix p cs ds more e))
after_prefix_resume r r' (at_eof p, ds) cs cs' more e h =
    absurd (unfold after_prefix in ground arith)
after_prefix_resume r r' (full p, ds) cs cs' more e h =
    let (enough, whole) = fill_full 4 r.prefix p cs ds more e in
    let (same, resumed) =
      size_payload_resume (record r { prefix = p }) r' ds cs' more (unfold after_prefix in h) in
    rw (same, whole, fill_done 4 p more enough)
      (ap (λ q. size_payload (record r' { prefix = q }) more) (sym same) ∙ resumed)

read_payload-resume :
    (r r' : Reader) (cs cs' more : List Bytes)
    → read_payload r cs ≡ (r', cs', pending)
    → read_payload r' more ≡ read_payload r (cs ++ more)
read_payload-resume r r' cs cs' more h =
    after_prefix_resume r r' (fill 4 r.prefix cs) cs cs' more refl (unfold read_payload in h)

module _ {A : Type 0} (decode : Bytes → Result IoError A) where
  finish_pending :
      (x : Read Bytes) (r' : Reader) (cs' : List Bytes)
      → finish decode x ≡ (r', cs', pending)
      → x ≡ (r', cs', pending)
  unfolding finish
  finish_pending (r, cs, pending) r' cs' h = ground arith
  finish_pending (r, cs, ready (err e)) r' cs' h = absurd (ground arith)
  finish_pending (r, cs, ready (ok p)) r' cs' h = absurd (ground arith)

  -- A read future may be dropped whenever it is pending: a new one over the reader as it stands and
  -- the bytes that come afterwards gives exactly what one future over all the bytes would have given,
  -- the same result, the same reader and the same bytes left.
  pub read-resume :
      (r r' : Reader) (cs cs' more : List Bytes)
      → read decode r cs ≡ (r', cs', pending)
      → read decode r' more ≡ read decode r (cs ++ more)
  unfolding read
  read-resume r r' cs cs' more h =
      ap (finish decode)
        (read_payload-resume r r' cs cs' more (finish_pending (read_payload r cs) r' cs' h))

  -- A deadline that passes while a frame is incomplete is reported as a time-out, and the reader keeps
  -- what it has: a later read goes on as if there had been none.
  pub read_with_timeout-resume :
      (r r' : Reader) (cs cs' more : List Bytes)
      → read decode r cs ≡ (r', cs', pending)
      → (read_with_timeout decode r cs ≡ (r', cs', ready (err timed_out)))
        × (read decode r' more ≡ read decode r (cs ++ more))
  unfolding read_with_timeout
  read_with_timeout-resume r r' cs cs' more h = (ap expire h, read-resume r r' cs cs' more h)
