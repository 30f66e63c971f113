-- ===== src/Flow/Effects.antt =====
-- What the effects of crates/flowsplice-home-core/src/tcp_flow.rs bring to the target.
use flowsplice_rust.Prelude.{
  ℕ, ◌+◌, ◌≤◌, ◌≡◌, refl, sym, ap, ◌∙◌, Bool, true, false, Bool-cases, Option-cases, inl, inr, List,
  [], ◌∷◌, ◌++◌, append_assoc, length, take, drop,
}
use flowsplice_rust.Prelude.Bytes.{Bytes}
use flowsplice_rust.Prelude.Text.{Text}
use flowsplice_rust.Prelude.Maps.{contains_key, nat_eq}
use flowsplice_rust.Protocol.{DataFrame, Uuid, stream_data, fin}
use flowsplice_rust.Flow.State.{
  Segment, Flow, Effect, to_carrier, to_target, shutdown_target, record_metric,
}
use flowsplice_rust.Flow.Frames.{send_to, retransmit_segments, retransmit}
use flowsplice_rust.Flow.{send_active}

-- The bytes are those of the stream at that offset.
abbrev pub IsSlice : Bytes → ℕ → Bytes → Type 0
IsSlice stream offset bytes =
    (bytes ≡ take (length bytes) (drop offset stream)) × (offset + length bytes ≤ length stream)

-- What reaches the target, in order.
abbrev pub delivered : List Effect → Bytes
delivered [] = []
delivered (to_target bytes ∷ es) = bytes ++ delivered es
delivered (to_carrier id frame ∷ es) = delivered es
delivered (shutdown_target ∷ es) = delivered es
delivered (record_metric r f v ∷ es) = delivered es

pub delivered-append : (xs ys : List Effect) → delivered (xs ++ ys) ≡ delivered xs ++ delivered ys
delivered-append [] ys = refl
delivered-append (to_target bytes ∷ xs) ys =
    ap (◌++◌ bytes) (delivered-append xs ys)
    ∙ sym (append_assoc bytes (delivered xs) (delivered ys))
delivered-append (to_carrier id frame ∷ xs) ys = delivered-append xs ys
delivered-append (shutdown_target ∷ xs) ys = delivered-append xs ys
delivered-append (record_metric r f v ∷ xs) ys = delivered-append xs ys

pub delivered-send_to :
    (cs : List (Uuid × Text)) (id : Uuid) (f : DataFrame) → delivered (send_to cs id f) ≡ []
unfolding send_to
delivered-send_to cs id f = elim (Bool-cases (contains_key cs id)) [ inl e ↦ rw e | inr e ↦ rw e ]

pub delivered-retransmit_segments :
    (cs : List (Uuid × Text)) (id flow_id : Uuid) (ss : List Segment)
    → delivered (retransmit_segments cs id flow_id ss) ≡ []
unfolding retransmit_segments
delivered-retransmit_segments cs id flow_id [] = refl
delivered-retransmit_segments cs id flow_id (s ∷ ss) =
    delivered-append (send_to cs id (stream_data flow_id s.offset s.bytes)) _
    ∙ rw (delivered-send_to cs id (stream_data flow_id s.offset s.bytes))
        (delivered-retransmit_segments cs id flow_id ss)

pub delivered-retransmit :
    (cs : List (Uuid × Text)) (id flow_id : Uuid) (ss : List Segment) (eof : Bool) (n : ℕ)
    → delivered (retransmit cs id flow_id ss eof n) ≡ []
unfolding retransmit
delivered-retransmit cs id flow_id ss true n =
    delivered-append (retransmit_segments cs id flow_id ss) (send_to cs id (fin flow_id n))
    ∙ rw (delivered-retransmit_segments cs id flow_id ss) (delivered-send_to cs id (fin flow_id n))
delivered-retransmit cs id flow_id ss false n =
    delivered-append (retransmit_segments cs id flow_id ss) []
    ∙ rw (delivered-retransmit_segments cs id flow_id ss)

pub delivered-send_active : (s : Flow) (f : DataFrame) → delivered (send_active s f) ≡ []
unfolding send_active
delivered-send_active s f = elim (Option-cases s.active_carrier) [
  | inl e ↦ rw (e, send_active)
  | inr (id, e) ↦ rw (e, send_active) (delivered-send_to s.carriers id f)
]
