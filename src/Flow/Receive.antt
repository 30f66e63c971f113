-- ===== src/Flow/Receive.antt =====
-- What an end of a TCP flow has passed on of the stream it receives (the receive offset of
-- crates/flowsplice-home-core/src/tcp_flow.rs and crates/flowsplice-travel-core/src/tcp_flow.rs).
use flowsplice_rust.Prelude.{
  ℕ, ◌+◌, ◌≤◌, ◌≡◌, refl, sym, ap, ◌∙◌, Bool, true, ◌++◌, length, take, drop, take-add,
  take-append-drop, IsU64, length-append, length-drop, take-append, drop-append, take_front,
  append_assoc, append-nil, [], saturating_add, saturating_add_lem, arith,
}
use flowsplice_rust.Prelude.Bytes.{Bytes}
use flowsplice_rust.Flow.Effects.{IsSlice}

-- The connection has the stream up to the receive offset, and all of it once it is shut down.
pub record Delivered (stream got : Bytes) (receive_offset : ℕ) (eof : Bool) : Type 0 where
  pub prefix : got ≡ take receive_offset stream
  pub within : receive_offset ≤ length stream
  pub whole : eof ≡ true → receive_offset ≡ length stream

-- The bytes at the receive offset extend the prefix.
pub extend :
    (stream : Bytes) (fits : IsU64 (length stream)) (got : Bytes) (at : ℕ) (eof : Bool)
    (bytes : Bytes)
    → Delivered stream got at eof
    → IsSlice stream at bytes
    → Delivered stream (got ++ bytes) (saturating_add at (length bytes)) eof
extend stream fits got at eof bytes d (same, room) =
    let exact : saturating_add at (length bytes) ≡ at + length bytes =
      omega (arith, saturating_add_lem at (length bytes)) in
    rw exact (record {
      prefix = cc (d.prefix, same, take-add at (length bytes) stream);
      within = room;
      whole = λ e. omega (arith, d.whole e);
    })

-- The front of a slice is a slice.
pub IsSlice-front :
    (stream : Bytes) (at : ℕ) (xs ys : Bytes) → IsSlice stream at (xs ++ ys) → IsSlice stream at xs
IsSlice-front stream at xs ys (same, room) = (
  sym (take_front (length xs) xs (ys ++ drop (length (xs ++ ys)) (drop at stream)) refl)
      ∙ ap (take (length xs)) (
          sym (append_assoc xs ys (drop (length (xs ++ ys)) (drop at stream)))
          ∙ ap (λ p. p ++ drop (length (xs ++ ys)) (drop at stream)) same
          ∙ take-append-drop (length (xs ++ ys)) (drop at stream)),
  omega (arith, length-append xs ys, room),
)

-- What was received stays received when more of the stream is produced, unless it had ended.
pub Delivered-append :
    (stream more got : Bytes) (receive_offset : ℕ) (eof : Bool)
    → (eof ≡ true → more ≡ [])
    → Delivered stream got receive_offset eof
    → Delivered (stream ++ more) got receive_offset eof
Delivered-append stream more got at eof ended d = record {
  prefix = d.prefix ∙ sym (take-append at stream more d.within);
  within = omega (arith, d.within, length-append stream more);
  whole = λ e.
      d.whole e ∙ sym (ap (λ m. length (stream ++ m)) (ended e) ∙ ap length (append-nil stream));
}

pub IsSlice-append :
    (stream more bytes : Bytes) (at : ℕ)
    → IsSlice stream at bytes
    → IsSlice (stream ++ more) at bytes
IsSlice-append stream more bytes at (same, room) = (
  same
      ∙ sym (
          ap (take (length bytes)) (drop-append at stream more (omega (arith, room)))
          ∙ take-append (length bytes) (drop at stream) more
              (omega (arith, room, length-drop at stream))),
  omega (arith, room, length-append stream more),
)
