-- ===== src/Travel/Cases.antt =====
-- Case rules for `handle_event` of crates/flowsplice-travel-core/src/tcp_flow.rs: a property of what a
-- turn leaves, and one of the transfer and effects it stops with, from those of each branch.
use flowsplice_rust.Prelude.{
  ℕ, ◌+◌, ◌≤◌, ◌≡◌, refl, ◌⊎◌, inl, inr, Bool, true, false, Option, none, List, [], ◌∷◌, ◌++◌,
  arith, ltb, leb, ◌==◌, if◌then◌else◌, Bool-cases, Option-cases, length, ok, err, saturating_add,
}
use flowsplice_rust.Prelude.Bytes.{Bytes}
use flowsplice_rust.Prelude.Maps.{remove, nat_eq}
use flowsplice_rust.Protocol.{
  Uuid, DataFrame, race_ack, race_duplicate, stream_data, ack, duplicate, fin, fin_ack, close,
}
use flowsplice_rust.Flow.State.{Effect, to_target, shutdown_target, Answer, done, failed, timed_out}
use flowsplice_rust.Flow.Frames.{send_to, pop_acked, splits, unwrap_or}
use flowsplice_rust.Flow.Cases.{IsReply}
use flowsplice_rust.Travel.State.{
  Transfer, unacked_limit, home_closed, invalid_frame, Write, Event, local_data, local_eof,
  local_error, carrier_frame, carrier_closed, Carriers,
}
use flowsplice_rust.Travel.Frames.{
  acknowledge, Turn, bail, handled, write_all, accept, on_data, on_ack, on_fin, on_frame,
  send_active, on_local_data, handle_event, is_carrier,
}

-- `Q` of the transfer, the Carriers, the effects and the result when the flow goes on, `S` of the transfer and the
-- effects when it stops.
abbrev pub Keeps :
    (Transfer → Carriers → List Effect → Bool → Type 0)
    → (Transfer → List Effect → Type 0)
    → Turn
    → Type 0
Keeps Q S (ok h) = Q h.transfer h.carriers h.effects h.closed_active
Keeps Q S (err stop) = S stop.transfer stop.effects

pub Keeps-if :
    (Q : Transfer → Carriers → List Effect → Bool → Type 0) (S : Transfer → List Effect → Type 0)
    (b : Bool) (t e : Turn)
    → (b ≡ true → Keeps Q S t)
    → (b ≡ false → Keeps Q S e)
    → Keeps Q S (if b then t else e)
Keeps-if Q S true t e f g = f refl
Keeps-if Q S false t e f g = g refl

module _ (Q : Transfer → Carriers → List Effect → Bool → Type 0)
    (S : Transfer → List Effect → Type 0) (t : Transfer) (cs : Carriers) (bails : S t []) where
  accept_cases :
      (id : Uuid) (bytes : Bytes) (writes : List Write)
      → (let written = write_all writes bytes t.receive_offset in
          written.failure ≡ none
          → Q
              (record t { receive_offset = written.receive_offset })
              cs
              (to_target written.bytes ∷ send_to cs id (ack t.flow_id written.receive_offset))
              false)
      → (let written = write_all writes bytes t.receive_offset in
          S (record t { receive_offset = written.receive_offset }) (to_target written.bytes ∷ []))
      → Keeps Q S (accept t cs id bytes writes)
  unfolding accept
  accept_cases id bytes writes whole part =
      let written = write_all writes bytes t.receive_offset in
      elim (Option-cases written.failure) [
        | inl e ↦ rw (e, Keeps) (whole e)
        | inr (fault, e) ↦ rw (e, Keeps) part
      ]

  pub on_data_cases :
      (active : Option Uuid) (id : Uuid) (offset : ℕ) (bytes : Bytes) (writes : List Write)
      → (let written = write_all writes bytes t.receive_offset in
          offset ≡ t.receive_offset
          → written.failure ≡ none
          → Q
              (record t { receive_offset = written.receive_offset })
              cs
              (to_target written.bytes ∷ send_to cs id (ack t.flow_id written.receive_offset))
              false)
      → (let written = write_all writes bytes t.receive_offset in
          offset ≡ t.receive_offset
          → S (record t { receive_offset = written.receive_offset }) (to_target written.bytes ∷ []))
      → ((f : DataFrame) → IsReply t.receive_offset f → Q t cs (send_to cs id f) false)
      → Keeps Q S (on_data t cs active id offset bytes writes)
  unfolding on_data
  on_data_cases active id offset bytes writes whole part reply =
      Keeps-if Q S (offset == t.receive_offset) _ _
        (λ e. accept_cases id bytes writes (whole (ground (arith, e))) (part (ground (arith, e))))
        λ _.
          Keeps-if Q S (leb (saturating_add offset (length bytes)) t.receive_offset) _ _
            (λ _. reply (duplicate t.flow_id t.receive_offset (unwrap_or active id)) refl)
            (λ _. bails)

  pub on_ack_cases :
      (next_offset : ℕ)
      → (let popped = pop_acked next_offset t.unacked t.unacked_bytes in
          splits next_offset popped.0 ≡ false
          → Q
              (record t { unacked = popped.0; unacked_bytes = popped.1; send_acked = next_offset })
              cs
              []
              false)
      → (let popped = pop_acked next_offset t.unacked t.unacked_bytes in
          S (record t { unacked = popped.0; unacked_bytes = popped.1 }) [])
      → Keeps Q S (on_ack t cs next_offset)
  unfolding on_ack acknowledge
  on_ack_cases next_offset whole split =
      let popped = pop_acked next_offset t.unacked t.unacked_bytes in
      elim (Bool-cases (splits next_offset popped.0)) [
        | inl e ↦ rw (e, Keeps) split
        | inr e ↦ rw (e, Keeps) (whole e)
      ]

  pub on_fin_cases :
      (id : Uuid) (final_offset : ℕ) (closing : Answer)
      → (t.remote_eof ≡ true → Q t cs (send_to cs id (fin_ack t.flow_id final_offset)) false)
      → (t.remote_eof ≡ false
          → Q
              (record t { remote_eof = true })
              cs
              (shutdown_target ∷ send_to cs id (fin_ack t.flow_id final_offset))
              false)
      → Keeps Q S (on_fin t cs id final_offset closing)
  unfolding on_fin
  on_fin_cases id final_offset done again first = Keeps-if Q S _ _ _ again first
  on_fin_cases id final_offset (failed written) again first = Keeps-if Q S _ _ _ again (λ _. bails)
  on_fin_cases id final_offset (timed_out written) again first =
      Keeps-if Q S _ _ _ again (λ _. bails)

  guarded :
      (b : Bool) (turn : Turn)
      → (b ≡ true → Keeps Q S turn)
      → Keeps Q S (if b then turn else bail t invalid_frame)
  guarded b turn arm = Keeps-if Q S b turn (bail t invalid_frame) arm (λ _. bails)

  pub on_frame_cases :
      (active : Option Uuid) (id : Uuid) (frame : DataFrame) (writes : List Write)
      (closing : Answer)
      → Q t cs [] false
      → ((offset : ℕ) (bytes : Bytes) (flow_id : Uuid)
          → frame ≡ stream_data flow_id offset bytes
          → Keeps Q S (on_data t cs active id offset bytes writes))
      → ((next_offset : ℕ) (flow_id winner : Uuid)
          → (frame ≡ ack flow_id next_offset) ⊎ (frame ≡ duplicate flow_id next_offset winner)
          → t.send_acked ≤ next_offset
          → next_offset ≤ t.send_offset
          → Keeps Q S (on_ack t cs next_offset))
      → ((final_offset : ℕ) (flow_id : Uuid)
          → frame ≡ fin flow_id final_offset
          → final_offset ≡ t.receive_offset
          → Keeps Q S (on_fin t cs id final_offset closing))
      → (t.local_eof ≡ true → Q (record t { local_fin_acked = true }) cs [] false)
      → Keeps Q S (on_frame t cs active id frame writes closing)
  unfolding on_frame
  on_frame_cases active id (race_ack f r w) writes closing ignored datas acks fins finished =
      ignored
  on_frame_cases active id (race_duplicate f r w) writes closing ignored datas acks fins finished =
      ignored
  on_frame_cases active id (stream_data f o b) writes closing ignored datas acks fins finished =
      guarded _ (on_data t cs active id o b writes) (λ _. datas o b f refl)
  on_frame_cases active id (ack f n) writes closing ignored datas acks fins finished =
      guarded _ (on_ack t cs n) (λ e. acks n f 0 (inl refl) (ground (arith, e)) (ground (arith, e)))
  on_frame_cases active id (duplicate f n w) writes closing ignored datas acks fins finished =
      guarded _ (on_ack t cs n) (λ e. acks n f w (inr refl) (ground (arith, e)) (ground (arith, e)))
  on_frame_cases active id (fin f n) writes closing ignored datas acks fins finished =
      guarded _ (on_fin t cs id n closing) (λ e. fins n f refl (ground (arith, e)))
  on_frame_cases active id (fin_ack f n) writes closing ignored datas acks fins finished =
      guarded _ (handled (record t { local_fin_acked = true }) cs [])
        (λ e. finished (ground (arith, e)))
  on_frame_cases active id (close f r) writes closing ignored datas acks fins finished =
      guarded (f == t.flow_id) (bail t home_closed) (λ _. bails)
  on_frame_cases active id _ writes closing ignored datas acks fins finished = bails

  abbrev pushed : Bytes → Transfer
  pushed bytes = record t {
    send_offset = saturating_add t.send_offset (length bytes);
    unacked_bytes = t.unacked_bytes + length bytes;
    unacked = t.unacked ++ (record { offset = t.send_offset; bytes = bytes } ∷ []);
  }

  -- The events, given the arms of a Carrier's frame.
  pub handle_event_cases :
      (active : Option Uuid) (ev : Event)
      → ((id : Uuid) (frame : DataFrame) (writes : List Write) (closing : Answer)
          → ev ≡ carrier_frame id frame writes closing
          → Keeps Q S (on_frame t cs active id frame writes closing))
      → ((bytes : Bytes)
          → ev ≡ local_data bytes
          → saturating_add t.unacked_bytes (length bytes) ≤ t.max_unacked_bytes
          → Q
              (pushed bytes)
              cs
              (send_active cs active (stream_data t.flow_id t.send_offset bytes))
              false)
      → (ev ≡ local_eof
          → Q
              (record t { local_eof = true })
              cs
              (send_active cs active (fin t.flow_id t.send_offset))
              false)
      → ((id : Uuid) → Q t (remove cs id) [] (is_carrier active id))
      → Keeps Q S (handle_event t cs active ev)
  unfolding handle_event on_local_data
  handle_event_cases active (local_data bytes) frames datas eof closed =
      Keeps-if Q S (ltb t.max_unacked_bytes (saturating_add t.unacked_bytes (length bytes)))
        (bail t unacked_limit)
        (handled (pushed bytes) cs
          (send_active cs active (stream_data t.flow_id t.send_offset bytes)))
        (λ _. bails) (λ fits. datas bytes refl (ground (arith, fits)))
  handle_event_cases active local_eof frames datas eof closed = eof refl
  handle_event_cases active local_error frames datas eof closed = bails
  handle_event_cases active (carrier_frame id frame writes closing) frames datas eof closed =
      frames id frame writes closing refl
  handle_event_cases active (carrier_closed id) frames datas eof closed = closed id
