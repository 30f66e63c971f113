-- ===== src/Flow/Queue.antt =====
-- What both ends of a TCP flow do with the stream they send (crates/flowsplice-home-core/src/tcp_flow.rs
-- and crates/flowsplice-travel-core/src/tcp_flow.rs): the queue of segments and what is sent from it.
use flowsplice_rust.Prelude.{
  ℕ, ◌+◌, ◌-◌, ◌≤◌, ◌≡◌, Bool, true, false, refl, subst, sym, ap, ◌∙◌, Bool-cases, inl, inr, List,
  [], ◌∷◌, ◌++◌, append_assoc, append-nil, length, length-append, length-drop, take, drop,
  take_front, drop_front, drop-append, drop-drop, All, All-append, IsU64, u64_max, saturating_add,
  saturating_add_lem, arith,
}
use flowsplice_rust.Prelude.Bytes.{Bytes}
use flowsplice_rust.Prelude.Text.{Text}
use flowsplice_rust.Prelude.Maps.{contains_key, nat_eq}
use flowsplice_rust.Protocol.{DataFrame, Uuid, stream_data, ack, fin, fin_ack, duplicate, open_ok}
use flowsplice_rust.Flow.State.{Segment, Effect, to_carrier}
use flowsplice_rust.Flow.Frames.{send_to, retransmit_segments, retransmit, pop_acked, splits}
use flowsplice_rust.Flow.Ack.{
  Chain, Chain-next, Chain-bounds, total, payload, length-payload, pop_acked-payload,
}
use flowsplice_rust.Flow.Effects.{IsSlice}
use flowsplice_rust.Flow.Receive.{IsSlice-append}
use flowsplice_rust.Flow.Cases.{IsReply}

-- What a frame tells of its sender, which has produced so much of a stream, has ended it or not, and
-- has received so much of the other: pieces of its stream at their offsets, the end of the stream at
-- its length, and no receipt of bytes it does not have.
abbrev pub IsTruthful : Bytes → Bool → ℕ → DataFrame → Type 0
IsTruthful produced eof received (stream_data flow_id offset bytes) = IsSlice produced offset bytes
IsTruthful produced eof received (fin flow_id final_offset) =
    (eof ≡ true) × (final_offset ≡ length produced)
IsTruthful produced eof received (ack flow_id next_offset) = next_offset ≤ received
IsTruthful produced eof received (duplicate flow_id next_offset winner) = next_offset ≤ received
IsTruthful produced eof received (fin_ack flow_id final_offset) = final_offset ≤ received
IsTruthful produced eof received (open_ok flow_id carrier_id receive_offset send_offset version) =
    receive_offset ≤ received
IsTruthful produced eof received _ = Unit {0}

-- What was true stays true as the sender goes on.
pub IsTruthful-append :
    (produced more : Bytes) (eof eof' : Bool) (received received' : ℕ) (f : DataFrame)
    → (eof ≡ true → more ≡ [])
    → (eof ≡ true → eof' ≡ true)
    → received ≤ received'
    → IsTruthful produced eof received f
    → IsTruthful (produced ++ more) eof' received' f
IsTruthful-append produced more eof eof' n n' (stream_data _ offset bytes) ended closes le h =
    IsSlice-append produced more bytes offset h
IsTruthful-append produced more eof eof' n n' (fin _ final_offset) ended closes le h = (
  closes h.0,
  h.1 ∙ sym (ap (λ m. length (produced ++ m)) (ended h.0) ∙ ap length (append-nil produced)),
)
IsTruthful-append produced more eof eof' n n' (ack _ m) ended closes le h = omega (arith, h, le)
IsTruthful-append produced more eof eof' n n' (duplicate _ m _) ended closes le h =
    omega (arith, h, le)
IsTruthful-append produced more eof eof' n n' (fin_ack _ m) ended closes le h = omega (arith, h, le)
IsTruthful-append produced more eof eof' n n' (open_ok _ _ m _ _) ended closes le h =
    omega (arith, h, le)
IsTruthful-append produced more eof eof' n n' _ ended closes le h = tt

abbrev pub IsSound : Bytes → Bool → ℕ → Effect → Type 0
IsSound produced eof received (to_carrier id frame) = IsTruthful produced eof received frame
IsSound produced eof received _ = Unit {0}

pub IsReply-IsTruthful :
    (produced : Bytes) (eof : Bool) (received : ℕ) (f : DataFrame)
    → IsReply received f
    → IsTruthful produced eof received f
IsReply-IsTruthful produced eof received (stream_data _ _ _) h = absurd h
IsReply-IsTruthful produced eof received (fin _ _) h = absurd h
IsReply-IsTruthful produced eof received (ack _ _) h = absurd h
IsReply-IsTruthful produced eof received (open_ok _ _ _ _ _) h = absurd h
IsReply-IsTruthful produced eof received (duplicate _ n _) h = omega (arith, h)
IsReply-IsTruthful produced eof received (fin_ack _ n) h = omega (arith, h)
IsReply-IsTruthful produced eof received _ h = tt

-- What the target has produced is counted, and the part that is not acknowledged is kept.
pub record Kept (produced : Bytes) (send_acked : ℕ) (unacked : List Segment) (send_offset : ℕ)
    : Type 0 where
  pub counted : send_offset ≡ length produced
  pub kept : payload unacked ≡ drop send_acked produced

-- The first bytes behind an offset are the slice there.
pub IsSlice-of_drop :
    (stream bytes rest : Bytes) (offset : ℕ)
    → offset ≤ length stream
    → bytes ++ rest ≡ drop offset stream
    → IsSlice stream offset bytes × (rest ≡ drop (offset + length bytes) stream)
IsSlice-of_drop stream bytes rest offset h e = (
  (
    sym (take_front (length bytes) bytes rest refl) ∙ ap (take (length bytes)) e,
    omega (arith, ap length e, length-append bytes rest, length-drop offset stream),
  ),
  sym (drop_front (length bytes) bytes rest refl)
      ∙ ap (drop (length bytes)) e
      ∙ drop-drop (length bytes) offset stream,
)

module _ (produced : Bytes) (eof : Bool) (received : ℕ) where
  pub send_to-IsSound :
      (cs : List (Uuid × Text)) (id : Uuid) (f : DataFrame)
      → IsTruthful produced eof received f
      → All (IsSound produced eof received) (send_to cs id f)
  unfolding send_to
  send_to-IsSound cs id f h = elim (Bool-cases (contains_key cs id)) [
    | inl e ↦ rw (e, All) (h, tt)
    | inr e ↦ rw (e, All) tt
  ]

  -- Every kept segment is a slice, so what is sent again is sound.
  retransmit_segments-IsSound :
      (cs : List (Uuid × Text)) (id flow_id : Uuid) (ss : List Segment) (a b : ℕ)
      → a + total ss ≤ u64_max
      → Chain a ss b
      → b ≡ length produced
      → payload ss ≡ drop a produced
      → All (IsSound produced eof received) (retransmit_segments cs id flow_id ss)
  unfolding retransmit_segments
  retransmit_segments-IsSound cs id flow_id [] a b room c end kept = tt
  retransmit_segments-IsSound cs id flow_id (s ∷ ss) a b room c end kept =
      let next = Chain-next s ss a b room c in
      let (slice, rest) =
        IsSlice-of_drop produced s.bytes (payload ss) a
          (omega (arith, Chain-bounds ss (a + length s.bytes) b (omega arith) next)) kept in
      All-append (IsSound produced eof received)
        (send_to cs id (stream_data flow_id s.offset s.bytes))
        (retransmit_segments cs id flow_id ss)
        (send_to-IsSound cs id (stream_data flow_id s.offset s.bytes)
          (subst (λ k. IsSlice produced k s.bytes) (sym c.0) slice))
        (retransmit_segments-IsSound cs id flow_id ss (a + length s.bytes) b (omega arith) next end
          rest)

-- The queue of segments: it runs from the acknowledged offset to the end of what was sent.
module _ (produced : Bytes) (fits : IsU64 (length produced)) (acked : ℕ) (ss : List Segment)
    (end : ℕ) (low : IsU64 acked) (c : Chain acked ss end) (k : Kept produced acked ss end) where
  -- The queue has the rest of the stream, so its end is within u64.
  pub room : acked + total ss ≤ u64_max
  room = omega (
    arith,
    k.counted,
    ap length k.kept,
    length-payload ss,
    length-drop acked produced,
    Chain-bounds ss acked end low c,
  )

  pub retransmit-IsSound :
      (eof : Bool) (received : ℕ) (cs : List (Uuid × Text)) (id flow_id : Uuid)
      → All (IsSound produced eof received) (retransmit cs id flow_id ss eof end)
  unfolding retransmit
  retransmit-IsSound true received cs id flow_id =
      All-append (IsSound produced true received) (retransmit_segments cs id flow_id ss)
        (send_to cs id (fin flow_id end))
        (retransmit_segments-IsSound produced true received cs id flow_id ss acked end room c
          k.counted k.kept)
        (send_to-IsSound produced true received cs id (fin flow_id end) (refl, k.counted))
  retransmit-IsSound false received cs id flow_id =
      All-append (IsSound produced false received) (retransmit_segments cs id flow_id ss) []
        (retransmit_segments-IsSound produced false received cs id flow_id ss acked end room c
          k.counted k.kept)
        tt

  pub pop_acked-Kept :
      (next n : ℕ)
      → acked ≤ next
      → next ≤ end
      → splits next (pop_acked next ss n).0 ≡ false
      → Kept produced next (pop_acked next ss n).0 end
  pop_acked-Kept next n lo hi whole = record {
    counted = k.counted;
    kept =
        pop_acked-payload next ss n acked end room c lo hi whole
        ∙ ap (drop (next - acked)) k.kept
        ∙ drop-drop (next - acked) acked produced
        ∙ ap (λ m. drop m produced) (omega arith);
  }

pub payload-snoc :
    (ss : List Segment) (s : Segment) → payload (ss ++ (s ∷ [])) ≡ payload ss ++ s.bytes
payload-snoc [] s = append-nil s.bytes
payload-snoc (x ∷ ss) s =
    ap (◌++◌ x.bytes) (payload-snoc ss s) ∙ sym (append_assoc x.bytes (payload ss) s.bytes)

-- More of the stream is produced.
module _ (produced bytes : Bytes) (fits : IsU64 (length (produced ++ bytes))) (acked : ℕ)
    (ss : List Segment) (end : ℕ) (low : IsU64 acked) (c : Chain acked ss end)
    (k : Kept produced acked ss end) where
  pub snoc-Kept :
      Kept
        (produced ++ bytes)
        acked
        (ss ++ (record { offset = end; bytes = bytes } ∷ []))
        (saturating_add end (length bytes))
  snoc-Kept = record {
    counted =
        omega
          (arith, k.counted, length-append produced bytes, saturating_add_lem end (length bytes));
    kept =
        payload-snoc ss (record { offset = end; bytes = bytes })
        ∙ ap (λ p. p ++ bytes) k.kept
        ∙ sym (
            drop-append acked produced bytes
              (omega (arith, k.counted, Chain-bounds ss acked end low c)));
  }

  pub snoc-IsSlice : IsSlice (produced ++ bytes) end bytes
  snoc-IsSlice =
      (IsSlice-of_drop (produced ++ bytes) bytes [] end
        (omega (arith, k.counted, length-append produced bytes))
        (append-nil bytes ∙ sym (drop_front end produced bytes k.counted))).0

pub Chain-snoc :
    (ss : List Segment) (a b : ℕ) (bytes : Bytes)
    → Chain a ss b
    → Chain a (ss ++ (record { offset = b; bytes = bytes } ∷ [])) (saturating_add b (length bytes))
Chain-snoc [] a b bytes c = (sym c, ap (λ k. saturating_add k (length bytes)) c)
Chain-snoc (s ∷ ss) a b bytes c =
    (c.0, Chain-snoc ss (saturating_add a (length s.bytes)) b bytes c.1)

pub total-append : (ss ts : List Segment) → total (ss ++ ts) ≡ total ss + total ts
total-append [] ts = omega arith
total-append (s ∷ ss) ts = omega (arith, total-append ss ts)
