-- ===== src/Frame/Reader/Fill.antt =====
-- The loop of frame.rs that reads into a buffer up to its length.
use flowsplice_rust.Prelude.{
  ℕ, suc, ◌-◌, ◌≤◌, ◌<◌, ◌≡◌, ◌≢◌, refl, sym, ap, ◌∙◌, Bool-cases, inl, inr, List, [], ◌∷◌, ◌++◌,
  append_assoc, append-nil, ltb, leb, length, length-append, length-take, length-drop,
  take-append-drop, take, drop, concat, All, arith,
}
use flowsplice_rust.Prelude.Bytes.{Bytes}
use flowsplice_rust.Frame.Reader.{Filled, full, starved, at_eof, fill}

-- No end of the stream among the chunks.
abbrev pub AllFull : List Bytes → Type 0
AllFull = All (λ c. c ≢ [])

-- What the loop leaves, short of the end of the stream: a full buffer and the bytes behind it, or
-- all the bytes there were.
abbrev pub FillMeets : ℕ → Bytes → Filled × List Bytes → Type 0
FillMeets want total (full p, cs) = (length p ≡ want) × (p ++ concat cs ≡ total) × AllFull cs
FillMeets want total (starved p, cs) = (length p < want) × (p ≡ total) × (cs ≡ [])
FillMeets want total (at_eof p, cs) = ⊥

-- A chunk that holds more than the buffer has room for is split where the buffer is full.
split_chunk :
    (want : ℕ) (got c : Bytes) (cs : List Bytes)
    → length got ≤ want
    → want - length got < length c
    → AllFull cs
    → FillMeets want
        (got ++ (c ++ concat cs))
        (full (got ++ take (want - length got) c), drop (want - length got) c ∷ cs)
split_chunk want got c cs h big f = (
  omega (arith, length-append got (take (want - length got) c), length-take (want - length got) c),
  append_assoc got (take (want - length got) c) (drop (want - length got) c ++ concat cs)
      ∙ ap (◌++◌ got) (
          sym (append_assoc (take (want - length got) c) (drop (want - length got) c) (concat cs))
          ∙ ap (λ z. z ++ concat cs) (take-append-drop (want - length got) c)),
  (λ e. omega (arith, ap length e, length-drop (want - length got) c), f),
)

pub fill_lem :
    (want : ℕ) (got : Bytes) (cs : List Bytes)
    → length got ≤ want
    → AllFull cs
    → FillMeets want (got ++ concat cs) (fill want got cs)
unfolding fill
fill_lem want got [] h f = elim (Bool-cases (ltb (length got) want)) [
  | inl more ↦ rw (more, append-nil) (ground arith, refl, refl)
  | inr done ↦ rw done (ground arith, refl, tt)
]
fill_lem want got ([] ∷ cs) h f = absurd (f.0 refl)
fill_lem want got ((b ∷ bs) ∷ cs) h f = elim (Bool-cases (leb want (length got))) [
  | inl done ↦ rw done (ground arith, refl, f)
  | inr more ↦ rw more (elim (Bool-cases (ltb (want - length got) (suc (length bs)))) [
    | inl big ↦ rw big (split_chunk want got (b ∷ bs) cs h (ground arith) f.1)
    | inr small ↦
        rw (small, ← append_assoc got (b ∷ bs) (concat cs))
          (fill_lem want (got ++ (b ∷ bs)) cs (ground (arith, length-append got (b ∷ bs))) f.1)
  ])
]

pub fill_done :
    (want : ℕ) (got : Bytes) (cs : List Bytes)
    → want ≤ length got
    → fill want got cs ≡ (full got, cs)
unfolding fill
fill_done want got [] h = ground arith
fill_done want got (c ∷ cs) h = ground arith

pub fill_starved :
    (want : ℕ) (got p : Bytes) (cs cs' more : List Bytes)
    → fill want got cs ≡ (starved p, cs')
    → fill want p more ≡ fill want got (cs ++ more)
unfolding fill
fill_starved want got p [] cs' more h = let same : p ≡ got = ground (arith, h) in rw same
fill_starved want got p (c ∷ cs) cs' more h =
    ground (arith, fill_starved want (got ++ c) p cs cs' more)

pub fill_full :
    (want : ℕ) (got p : Bytes) (cs cs' more : List Bytes)
    → fill want got cs ≡ (full p, cs')
    → (want ≤ length p) × (fill want got (cs ++ more) ≡ (full p, cs' ++ more))
unfolding fill
fill_full want got p [] cs' more h = ground (arith, fill_done want got more)
fill_full want got p (c ∷ cs) cs' more h = ground (
  arith,
  fill_full want (got ++ c) p cs cs' more,
  length-append got (take (want - length got) c),
  length-take (want - length got) c,
)
