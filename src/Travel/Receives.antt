-- ===== src/Travel/Receives.antt =====
-- Home to Travel in crates/flowsplice-travel-core/src/tcp_flow.rs: what the local connection receives,
-- and how far the offsets move.
use flowsplice_rust.Prelude.{
  ℕ, zero, suc, ◌≤◌, min, ◌≡◌, refl, sym, ap, ◌∙◌, subst, Bool, true, Option, none, some, List, [],
  ◌∷◌, ◌++◌, append-nil, append_assoc, arith, length, take, drop, length-append, take-append-drop,
  length-take, IsU64, saturating_add, saturating_add_lem,
}
use flowsplice_rust.Prelude.Bytes.{Bytes}
use flowsplice_rust.Prelude.Maps.{nat_eq}
use flowsplice_rust.Protocol.{Uuid, DataFrame, race, stream_data, ack, fin, fin_ack}
use flowsplice_rust.Flow.State.{Effect, Answer, to_target}
use flowsplice_rust.Flow.Frames.{send_to}
use flowsplice_rust.Flow.Effects.{IsSlice, delivered, delivered-send_to, delivered-retransmit}
use flowsplice_rust.Flow.Receive.{Delivered, extend, IsSlice-front}
use flowsplice_rust.Flow.Queue.{IsTruthful}
use flowsplice_rust.Travel.State.{
  Transfer, Fault, write_timed_out, write_failed, write_returned_zero, Write, wrote, write_error,
  Event, carrier_frame, Carriers,
}
use flowsplice_rust.Travel.Frames.{
  retransmit, Written, write_all, on_frame, send_active, handle_event,
}
use flowsplice_rust.Travel.Racing.{Settings, Travel}
use flowsplice_rust.Travel.{Input, event, opened, is_awaited, step}
use flowsplice_rust.Travel.Cases.{
  Keeps, on_data_cases, on_ack_cases, on_fin_cases, on_frame_cases, handle_event_cases,
}
use flowsplice_rust.Travel.Steps.{LoopKeeps, AnyCarriers, step_cases}

delivered-send_active :
    (cs : Carriers) (active : Option Uuid) (f : DataFrame)
    → delivered (send_active cs active f) ≡ []
unfolding send_active
delivered-send_active cs none f = refl
delivered-send_active cs (some id) f = delivered-send_to cs id f

-- The write loop writes a front of the bytes and counts it; without a failure, all of them.
record Wrote (bytes : Bytes) (received : ℕ) (w : Written) : Type 0 where
  rest : Bytes
  front : w.bytes ++ rest ≡ bytes
  counted : w.receive_offset ≡ saturating_add received (length w.bytes)
  whole : w.failure ≡ none → rest ≡ []

empty-Wrote :
    (bytes : Bytes) (received : ℕ) (failure : Option Fault)
    → IsU64 received
    → (failure ≡ none → bytes ≡ [])
    → Wrote bytes received (record { receive_offset = received; bytes = []; failure = failure })
empty-Wrote bytes received failure u h = record {
  rest = bytes;
  front = refl;
  counted = omega (arith, saturating_add_lem received 0);
  whole = h;
}

write_all-Wrote :
    (ws : List Write) (bytes : Bytes) (received : ℕ)
    → IsU64 received
    → Wrote bytes received (write_all ws bytes received)
unfolding write_all
write_all-Wrote ws [] received u = empty-Wrote [] received none u (λ _. refl)
write_all-Wrote [] (b ∷ bs) received u =
    empty-Wrote (b ∷ bs) received (some write_timed_out) u (λ e. absurd (ground (arith, e)))
write_all-Wrote (write_error ∷ ws) (b ∷ bs) received u =
    empty-Wrote (b ∷ bs) received (some write_failed) u (λ e. absurd (ground (arith, e)))
write_all-Wrote (wrote zero ∷ ws) (b ∷ bs) received u =
    empty-Wrote (b ∷ bs) received (some write_returned_zero) u (λ e. absurd (ground (arith, e)))
write_all-Wrote (wrote (suc n) ∷ ws) (b ∷ bs) received u =
    let count = suc (min n (length bs)) in
    let next = saturating_add received count in
    let small = saturating_add_lem received count in
    let ih : Wrote (drop n bs) next (write_all ws (drop n bs) next) =
      write_all-Wrote ws (drop n bs) next (omega (arith, small)) in
    let w = write_all ws (drop n bs) next in
    record {
      rest = ih.rest;
      front =
          append_assoc (b ∷ take n bs) w.bytes ih.rest
          ∙ ap (λ r. b ∷ (take n bs ++ r)) ih.front
          ∙ ap (◌∷◌ b) (take-append-drop n bs);
      counted = omega (
        arith,
        ih.counted,
        small,
        saturating_add_lem next (length w.bytes),
        saturating_add_lem received (length (take (suc n) (b ∷ bs) ++ w.bytes)),
        length-append (take (suc n) (b ∷ bs)) w.bytes,
        length-take n bs,
      );
      whole = ih.whole;
    }

pub write_all-le :
    (ws : List Write) (bytes : Bytes) (received : ℕ)
    → IsU64 received
    → received ≤ (write_all ws bytes received).receive_offset
write_all-le ws bytes received u =
    let w = write_all ws bytes received in
    let lem : Wrote bytes received w = write_all-Wrote ws bytes received u in
    omega (arith, lem.counted, saturating_add_lem received (length w.bytes), u)

module _ (stream : Bytes) (fits : IsU64 (length stream)) where
  -- The local connection has a prefix of the stream, counted by the receive offset.
  abbrev pub Receives : Bytes → Transfer → List Effect → Type 0
  Receives got t effects = Delivered stream (got ++ delivered effects) t.receive_offset t.remote_eof

  module _ (got : Bytes) (t : Transfer)
      (d : Delivered stream got t.receive_offset t.remote_eof) where
    silent :
        (effects : List Effect)
        → delivered effects ≡ []
        → Delivered stream (got ++ delivered effects) t.receive_offset t.remote_eof
    silent effects e = rw (e, append-nil got) d

    -- The bytes written are the next of the stream.
    written-Delivered :
        (writes : List Write) (bytes : Bytes) (more : List Effect)
        → IsSlice stream t.receive_offset bytes
        → delivered more ≡ []
        → (let w = write_all writes bytes t.receive_offset in
            Delivered stream
              (got ++ delivered (to_target w.bytes ∷ more))
              w.receive_offset
              t.remote_eof)
    written-Delivered writes bytes more slice none_more =
        let w = write_all writes bytes t.receive_offset in
        let lem : Wrote bytes t.receive_offset w =
          write_all-Wrote writes bytes t.receive_offset (omega (arith, d.within, fits)) in
        rw (none_more, append-nil w.bytes, lem.counted)
          (extend stream fits got t.receive_offset t.remote_eof w.bytes d (
            IsSlice-front stream t.receive_offset w.bytes lem.rest
              (subst (IsSlice stream t.receive_offset) (sym lem.front) slice)))

    on_frame-Receives :
        (eof : Bool) (n : ℕ) (cs : Carriers) (active : Option Uuid) (id : Uuid) (frame : DataFrame)
        (writes : List Write) (closing : Answer)
        → IsTruthful stream eof n frame
        → Keeps
            (AnyCarriers (Receives got))
            (Receives got)
            (on_frame t cs active id frame writes closing)
    on_frame-Receives eof n cs active id frame writes closing h =
        on_frame_cases Q S t cs (silent [] refl) active id frame writes closing (silent [] refl)
          (λ offset bytes f e.
            on_data_cases Q S t cs (silent [] refl) active id offset bytes writes
              (λ at _.
                written-Delivered writes bytes
                  (send_to cs id
                    (ack t.flow_id (write_all writes bytes t.receive_offset).receive_offset))
                  (subst (λ k. IsSlice stream k bytes) at (subst (IsTruthful stream eof n) e h))
                  (delivered-send_to cs id _))
              (λ at.
                written-Delivered writes bytes []
                  (subst (λ k. IsSlice stream k bytes) at (subst (IsTruthful stream eof n) e h))
                  refl)
              (λ f _. silent (send_to cs id f) (delivered-send_to cs id f)))
          (λ m _ _ _ _ _.
            on_ack_cases Q S t cs (silent [] refl) m (λ _. silent [] refl) (silent [] refl))
          (λ final_offset f e at.
            on_fin_cases Q S t cs (silent [] refl) id final_offset closing
              (λ _.
                silent (send_to cs id (fin_ack t.flow_id final_offset))
                  (delivered-send_to cs id (fin_ack t.flow_id final_offset)))
              (λ _.
                rw (delivered-send_to cs id (fin_ack t.flow_id final_offset), append-nil got)
                  (record {
                    prefix = d.prefix;
                    within = d.within;
                    whole = λ _. sym at ∙ (subst (IsTruthful stream eof n) e h).1;
                  })))
          (λ _. silent [] refl)
      where
        Q : Transfer → Carriers → List Effect → Bool → Type 0
        Q = AnyCarriers (Receives got)

        S : Transfer → List Effect → Type 0
        S = Receives got

-- An event brings only frames that are true of the other end, which has produced the stream, has
-- ended it or not, and has received so much.
abbrev pub IsHonest : Bytes → Bool → ℕ → Event → Type 0
IsHonest stream eof received (carrier_frame id frame writes closing) =
    IsTruthful stream eof received frame
IsHonest stream eof received _ = Unit {0}

abbrev pub IsHonestInput : Bytes → Bool → ℕ → Input → Type 0
IsHonestInput stream eof received (event ev) = IsHonest stream eof received ev
IsHonestInput stream eof received (opened id relay_id home_receive_offset) =
    home_receive_offset ≤ received
IsHonestInput stream eof received _ = Unit {0}

module _ (stream : Bytes) (fits : IsU64 (length stream)) (got : Bytes) (eof : Bool) (n : ℕ) where
  abbrev Got : Transfer → List Effect → Type 0
  Got = Receives stream fits got

  handle_event-Receives :
      (t : Transfer) (cs : Carriers) (active : Option Uuid) (ev : Event)
      → Delivered stream got t.receive_offset t.remote_eof
      → IsHonest stream eof n ev
      → Keeps (AnyCarriers Got) Got (handle_event t cs active ev)
  handle_event-Receives t cs active ev d h =
      handle_event_cases (AnyCarriers Got) Got t cs (quiet [] refl) active ev
        (λ id frame writes closing e.
          on_frame-Receives stream fits got t d eof n cs active id frame writes closing
            (subst (IsHonest stream eof n) e h))
        (λ bytes _ _.
          quiet (send_active cs active (stream_data t.flow_id t.send_offset bytes))
            (delivered-send_active cs active (stream_data t.flow_id t.send_offset bytes)))
        (λ _.
          quiet (send_active cs active (fin t.flow_id t.send_offset))
            (delivered-send_active cs active (fin t.flow_id t.send_offset)))
        (λ _. quiet [] refl)
    where
      quiet :
          (effects : List Effect)
          → delivered effects ≡ []
          → Delivered stream (got ++ delivered effects) t.receive_offset t.remote_eof
      quiet = silent stream fits got t d

  -- Whether the step goes on or stops, the local connection has a prefix of what the target produced,
  -- as long as the receive offset, and all of it once it is shut down: even a frame that was written
  -- in part before an error. The input is awaited and honest, and the stream is within u64.
  pub step-Receives :
      (cfg : Settings) (now : ℕ) (s : Travel) (input : Input)
      → is_awaited s.phase input ≡ true
      → Delivered stream got s.transfer.receive_offset s.transfer.remote_eof
      → IsHonestInput stream eof n input
      → LoopKeeps Got Got (step cfg now s input)
  step-Receives cfg now s input awaited d h =
      step_cases Got Got cfg now s input awaited (quiet [] refl) (λ _. quiet [] refl)
        (λ _ cs id. quiet (retransmit s.transfer cs id) (delivered-again cs id))
        (λ ev e.
          handle_event-Receives s.transfer s.carriers s.active ev d
            (subst (IsHonestInput stream eof n) e h))
        (λ id relay_id m race_id cs _ _ _ _.
          quiet (send_to cs id (race s.transfer.flow_id race_id m))
            (delivered-send_to cs id (race s.transfer.flow_id race_id m)))
        (λ _. quiet [] refl)
        (λ _ race_id.
          quiet
            (send_active s.carriers s.active
              (race s.transfer.flow_id race_id s.transfer.send_acked))
            (delivered-send_active s.carriers s.active
              (race s.transfer.flow_id race_id s.transfer.send_acked)))
    where
      quiet :
          (effects : List Effect)
          → delivered effects ≡ []
          → Delivered stream
              (got ++ delivered effects)
              s.transfer.receive_offset
              s.transfer.remote_eof
      quiet = silent stream fits got s.transfer d

      delivered-again : (cs : Carriers) (id : Uuid) → delivered (retransmit s.transfer cs id) ≡ []
      delivered-again cs id =
          unfold retransmit in
          delivered-retransmit cs id s.transfer.flow_id s.transfer.unacked s.transfer.local_eof
            s.transfer.send_offset
