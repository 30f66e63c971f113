-- ===== src/Flow/Ack.antt =====
-- `acknowledge` of crates/flowsplice-home-core/src/tcp_flow.rs: the queue of unacknowledged segments.
use flowsplice_rust.Prelude.{
  ℕ, ◌+◌, ◌-◌, ◌≤◌, ◌<◌, ◌≡◌, refl, subst, sym, ap, ◌∙◌, Bool, true, false, Bool-cases, inl, inr,
  List, [], ◌∷◌, ◌++◌, ltb, ◌==◌, ◌||◌, not, drop_nil, drop_past, length, length-append, drop,
  IsU64, u64_max, saturating_add, saturating_add_lem, arith,
}
use flowsplice_rust.Prelude.Bytes.{Bytes}
use flowsplice_rust.Flow.State.{Segment}
use flowsplice_rust.Flow.Frames.{pop_acked, splits}

-- The segments follow one another from `a` to `b`.
abbrev pub Chain : ℕ → List Segment → ℕ → Type 0
Chain a [] b = a ≡ b
Chain a (s ∷ ss) b = (s.offset ≡ a) × Chain (saturating_add a (length s.bytes)) ss b

abbrev pub total : List Segment → ℕ
total [] = 0
total (s ∷ ss) = length s.bytes + total ss

abbrev pub payload : List Segment → Bytes
payload [] = []
payload (s ∷ ss) = s.bytes ++ payload ss

pub length-payload : (ss : List Segment) → length (payload ss) ≡ total ss
length-payload [] = refl
length-payload (s ∷ ss) = omega (arith, length-append s.bytes (payload ss), length-payload ss)

pub Chain-bounds : (ss : List Segment) (a b : ℕ) → IsU64 a → Chain a ss b → (a ≤ b) × IsU64 b
Chain-bounds [] a b h c = omega arith
Chain-bounds (s ∷ ss) a b h c = omega (
  arith,
  saturating_add_lem a (length s.bytes),
  Chain-bounds ss (saturating_add a (length s.bytes)) b
      (omega (arith, saturating_add_lem a (length s.bytes))) c.1,
)

-- What is popped leaves a chain from the acknowledged offset, unless a segment is split.
pub pop_acked-Chain :
    (next : ℕ) (ss : List Segment) (n a b : ℕ)
    → IsU64 a
    → Chain a ss b
    → a ≤ next
    → next ≤ b
    → splits next (pop_acked next ss n).0 ≡ false
    → Chain next (pop_acked next ss n).0 b
unfolding pop_acked splits
pop_acked-Chain next [] n a b h c lo hi whole = omega arith
pop_acked-Chain next (s ∷ ss) n a b h c lo hi whole =
    let end = saturating_add a (length s.bytes) in
    ground (
      arith,
      c.0,
      saturating_add_lem a (length s.bytes),
      pop_acked-Chain next ss (n - length s.bytes) end b,
    )

-- The count of unacknowledged bytes stays exact.
pub pop_acked-total :
    (next : ℕ) (ss : List Segment) (n : ℕ)
    → n ≡ total ss
    → (pop_acked next ss n).1 ≡ total (pop_acked next ss n).0
unfolding pop_acked
pop_acked-total next [] n h = omega arith
pop_acked-total next (s ∷ ss) n h = ground (arith, pop_acked-total next ss (n - length s.bytes))

pub total-pop_acked-le :
    (next : ℕ) (ss : List Segment) (n : ℕ) → total (pop_acked next ss n).0 ≤ total ss
unfolding pop_acked
total-pop_acked-le next [] n = omega arith
total-pop_acked-le next (s ∷ ss) n = ground (arith, total-pop_acked-le next ss (n - length s.bytes))

-- An offset at which a segment of the chain from `a` starts, or at which the chain ends.
unfoldable pub is_boundary : ℕ → ℕ → List Segment → Bool
is_boundary next a [] = next == a
is_boundary next a (s ∷ ss) = next == a || is_boundary next (a + length s.bytes) ss

is_boundary_here : (next a : ℕ) (ss : List Segment) → next ≡ a → is_boundary next a ss ≡ true
unfolding is_boundary
is_boundary_here next a [] h = ground arith
is_boundary_here next a (s ∷ ss) h = ground arith

is_boundary_before : (next a : ℕ) (ss : List Segment) → next < a → is_boundary next a ss ≡ false
unfolding is_boundary
is_boundary_before next a [] h = ground arith
is_boundary_before next a (s ∷ ss) h =
    ground (arith, is_boundary_before next (a + length s.bytes) ss)

-- Below the end of u64 the chain goes on without saturation.
pub Chain-next :
    (s : Segment) (ss : List Segment) (a b : ℕ)
    → a + total (s ∷ ss) ≤ u64_max
    → Chain a (s ∷ ss) b
    → Chain (a + length s.bytes) ss b
Chain-next s ss a b h c =
    subst (λ k. Chain k ss b) (omega (arith, saturating_add_lem a (length s.bytes))) c.1

pub splits-is_boundary :
    (next : ℕ) (ss : List Segment) (n a b : ℕ)
    → a + total ss ≤ u64_max
    → Chain a ss b
    → a ≤ next
    → next ≤ b
    → splits next (pop_acked next ss n).0 ≡ not (is_boundary next a ss)
unfolding pop_acked splits is_boundary
splits-is_boundary next [] n a b h c lo hi = ground arith
splits-is_boundary next (s ∷ ss) n a b h c lo hi =
    let end = a + length s.bytes in
    ground (
      arith,
      c.0,
      saturating_add_lem s.offset (length s.bytes),
      is_boundary_before next end ss,
      is_boundary_here next end ss,
      splits-is_boundary next ss (n - length s.bytes) end b (omega arith) (Chain-next s ss a b h c),
    )

pub pop_acked-payload :
    (next : ℕ) (ss : List Segment) (n a b : ℕ)
    → a + total ss ≤ u64_max
    → Chain a ss b
    → a ≤ next
    → next ≤ b
    → splits next (pop_acked next ss n).0 ≡ false
    → payload (pop_acked next ss n).0 ≡ drop (next - a) (payload ss)
unfolding pop_acked splits
pop_acked-payload next [] n a b h c lo hi whole = sym (drop_nil (next - a))
pop_acked-payload next (s ∷ ss) n a b h c lo hi whole =
    elim (Bool-cases (ltb next (saturating_add s.offset (length s.bytes)))) [
      | inl kept ↦
          let in_place : ltb s.offset next ≡ false = rw (kept, pop_acked) at whole in
          rw kept (
            ap (λ k. drop k (payload (s ∷ ss)))
              (let none_gone : 0 ≡ next - a = ground (arith, c.0, in_place) in none_gone))
      | inr popped ↦
          let end_passed : length s.bytes ≤ next - a =
            ground (arith, c.0, popped, saturating_add_lem s.offset (length s.bytes)) in
          rw popped (
            pop_acked-payload next ss (n - length s.bytes) (a + length s.bytes) b (omega arith)
              (Chain-next s ss a b h c) (omega arith) hi (rw (popped, pop_acked) at whole)
            ∙ ap (λ k. drop k (payload ss)) (omega arith)
            ∙ sym (drop_past (next - a) s.bytes (payload ss) end_passed))
    ]
