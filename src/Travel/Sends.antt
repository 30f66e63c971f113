-- ===== src/Travel/Sends.antt =====
-- Travel to Home in crates/flowsplice-travel-core/src/tcp_flow.rs: what is sent and kept for sending,
-- and what the loop confirms.
use flowsplice_rust.Prelude.{
  ℕ, ◌+◌, ◌≤◌, ◌<◌, ◌≡◌, refl, Bool, true, false, Option, none, some, List, [], ◌∷◌, ◌++◌,
  append-nil, arith, ltb, length, All, u64_max, IsU64, saturating_add, saturating_add_lem,
}
use flowsplice_rust.Prelude.Bytes.{Bytes}
use flowsplice_rust.Prelude.Maps.{nat_eq}
use flowsplice_rust.Protocol.{Uuid, DataFrame, race, stream_data, ack, fin, fin_ack}
use flowsplice_rust.Flow.State.{Effect, Answer, Segment}
use flowsplice_rust.Flow.Frames.{send_to, pop_acked, splits}
use flowsplice_rust.Flow.Ack.{
  Chain, total, Chain-bounds, pop_acked-Chain, pop_acked-total, total-pop_acked-le,
}
use flowsplice_rust.Flow.Queue.{
  IsTruthful, IsSound, Kept, IsReply-IsTruthful, send_to-IsSound, retransmit-IsSound,
  pop_acked-Kept, snoc-Kept, snoc-IsSlice, Chain-snoc, total-append,
}
use flowsplice_rust.Travel.State.{
  Transfer, Write, Event, local_data, local_eof, local_error, carrier_frame, carrier_closed,
  Carriers,
}
use flowsplice_rust.Travel.Frames.{
  retransmit, Written, write_all, on_frame, send_active, on_local_data, handle_event,
}
use flowsplice_rust.Travel.Racing.{Settings, Travel}
use flowsplice_rust.Travel.{
  Input, loop_head, opened, open_failed, event, events_closed, time_passed, is_awaited, step,
}
use flowsplice_rust.Travel.Cases.{
  Keeps, Keeps-if, on_data_cases, on_ack_cases, on_fin_cases, on_frame_cases,
}
use flowsplice_rust.Travel.Steps.{LoopKeeps, AnyCarriers, IsQuiet, step_cases}

-- The queue of what the local connection has produced and Home has not acknowledged.
pub record Sending (produced : Bytes) (send_acked : ℕ) (unacked : List Segment)
    (send_offset unacked_bytes max_unacked_bytes : ℕ) : Type 0 where
  pub chain : Chain send_acked unacked send_offset
  pub acked_range : IsU64 send_acked
  pub counted : unacked_bytes ≡ total unacked
  pub bounded : unacked_bytes ≤ max_unacked_bytes
  pub kept : Kept produced send_acked unacked send_offset

abbrev pub IsSending : Bytes → Transfer → Type 0
IsSending produced t =
    Sending produced t.send_acked t.unacked t.send_offset t.unacked_bytes t.max_unacked_bytes

-- The state keeps the stream, and what was sent is true of it.
abbrev pub Sends : Bytes → Transfer → List Effect → Type 0
Sends produced t effects =
    IsSending produced t × All (IsSound produced t.local_eof t.receive_offset) effects

abbrev pub Anything : Transfer → List Effect → Type 0
Anything t effects = Unit {0}

abbrev pub output : Event → Bytes
output (local_data bytes) = bytes
output _ = []

abbrev pub loop_output : Input → Bytes
loop_output (event ev) = output ev
loop_output _ = []

send_active-IsSound :
    (produced : Bytes) (eof : Bool) (received : ℕ) (cs : Carriers) (active : Option Uuid)
    (f : DataFrame)
    → IsTruthful produced eof received f
    → All (IsSound produced eof received) (send_active cs active f)
unfolding send_active
send_active-IsSound produced eof received cs none f h = tt
send_active-IsSound produced eof received cs (some id) f h =
    send_to-IsSound produced eof received cs id f h

module _ (produced : Bytes) (fits : IsU64 (length produced)) (t : Transfer)
    (v : IsSending produced t) where
  acked-IsSending :
      (n : ℕ)
      → t.send_acked ≤ n
      → n ≤ t.send_offset
      → (let popped = pop_acked n t.unacked t.unacked_bytes in
          splits n popped.0 ≡ false
          → IsSending produced
              (record t { unacked = popped.0; unacked_bytes = popped.1; send_acked = n }))
  acked-IsSending n lo hi whole = record {
    chain =
        pop_acked-Chain n t.unacked t.unacked_bytes t.send_acked t.send_offset v.acked_range v.chain
          lo hi whole;
    acked_range =
        omega (arith, Chain-bounds t.unacked t.send_acked t.send_offset v.acked_range v.chain);
    counted = pop_acked-total n t.unacked t.unacked_bytes v.counted;
    bounded = omega (
      arith,
      pop_acked-total n t.unacked t.unacked_bytes v.counted,
      total-pop_acked-le n t.unacked t.unacked_bytes,
      v.counted,
      v.bounded,
    );
    kept =
        pop_acked-Kept produced fits t.send_acked t.unacked t.send_offset v.acked_range v.chain
          v.kept n t.unacked_bytes lo hi whole;
  }

  on_frame-Sends :
      (cs : Carriers) (active : Option Uuid) (id : Uuid) (frame : DataFrame) (writes : List Write)
      (closing : Answer)
      → Keeps (AnyCarriers (Sends produced)) Anything (on_frame t cs active id frame writes closing)
  on_frame-Sends cs active id frame writes closing =
      on_frame_cases Q Anything t cs tt active id frame writes closing (v, tt)
        (λ offset bytes _ _.
          on_data_cases Q Anything t cs tt active id offset bytes writes
            (λ _ _. (
              v,
              (
                tt,
                send_to-IsSound produced t.local_eof (written bytes).receive_offset cs id
                    (ack t.flow_id (written bytes).receive_offset) (omega arith),
              ),
            ))
            (λ _. tt)
            (λ f r. reply f (IsReply-IsTruthful produced t.local_eof t.receive_offset f r)))
        (λ n _ _ _ lo hi.
          on_ack_cases Q Anything t cs tt n (λ whole. (acked-IsSending n lo hi whole, tt)) tt)
        (λ final_offset _ _ at.
          on_fin_cases Q Anything t cs tt id final_offset closing
            (λ _. reply (fin_ack t.flow_id final_offset) (omega (arith, at)))
            (λ _. (
              v,
              (
                tt,
                send_to-IsSound produced t.local_eof t.receive_offset cs id
                    (fin_ack t.flow_id final_offset) (omega (arith, at)),
              ),
            )))
        (λ _. (v, tt))
    where
      Q : Transfer → Carriers → List Effect → Bool → Type 0
      Q = AnyCarriers (Sends produced)

      written : Bytes → Written
      written bytes = write_all writes bytes t.receive_offset

      reply :
          (f : DataFrame)
          → IsTruthful produced t.local_eof t.receive_offset f
          → Sends produced t (send_to cs id f)
      reply f h = (v, send_to-IsSound produced t.local_eof t.receive_offset cs id f h)

local_data-Sends :
    (produced bytes : Bytes) (t : Transfer) (cs : Carriers) (active : Option Uuid)
    → IsU64 (length (produced ++ bytes))
    → t.max_unacked_bytes < u64_max
    → IsSending produced t
    → saturating_add t.unacked_bytes (length bytes) ≤ t.max_unacked_bytes
    → Sends
        (produced ++ bytes)
        (record t {
          send_offset = saturating_add t.send_offset (length bytes);
          unacked_bytes = t.unacked_bytes + length bytes;
          unacked = t.unacked ++ (record { offset = t.send_offset; bytes = bytes } ∷ []);
        })
        (send_active cs active (stream_data t.flow_id t.send_offset bytes))
local_data-Sends produced bytes t cs active fits limit v room = (
  record {
    chain = Chain-snoc t.unacked t.send_acked t.send_offset bytes v.chain;
    acked_range = v.acked_range;
    counted = omega (
      arith,
      v.counted,
      total-append t.unacked (record { offset = t.send_offset; bytes = bytes } ∷ []),
    );
    bounded = omega (arith, saturating_add_lem t.unacked_bytes (length bytes), room, limit);
    kept =
        snoc-Kept produced bytes fits t.send_acked t.unacked t.send_offset v.acked_range v.chain
          v.kept;
  },
  send_active-IsSound (produced ++ bytes) t.local_eof t.receive_offset cs active
      (stream_data t.flow_id t.send_offset bytes)
      (snoc-IsSlice produced bytes fits t.send_acked t.unacked t.send_offset v.acked_range v.chain
        v.kept),
)

handle_event-Sends :
    (produced : Bytes) (t : Transfer) (cs : Carriers) (active : Option Uuid) (ev : Event)
    → IsU64 (length (produced ++ output ev))
    → t.max_unacked_bytes < u64_max
    → IsSending produced t
    → Keeps (AnyCarriers (Sends (produced ++ output ev))) Anything (handle_event t cs active ev)
unfolding handle_event on_local_data
handle_event-Sends produced t cs active (local_data bytes) fits limit v =
    Keeps-if (AnyCarriers (Sends (produced ++ bytes))) Anything
      (ltb t.max_unacked_bytes (saturating_add t.unacked_bytes (length bytes))) _ _ (λ _. tt)
      λ room. local_data-Sends produced bytes t cs active fits limit v (ground (arith, room))
handle_event-Sends produced t cs active local_eof fits limit v = rw (append-nil produced) (
  v,
  send_active-IsSound produced true t.receive_offset cs active (fin t.flow_id t.send_offset)
      (refl, v.kept.counted),
)
handle_event-Sends produced t cs active local_error fits limit v = tt
handle_event-Sends produced t cs active (carrier_frame id frame writes closing) fits limit v =
    rw (append-nil produced) (
      on_frame-Sends produced (rw (append-nil produced) at fits) t v cs active id frame writes
        closing)
handle_event-Sends produced t cs active (carrier_closed id) fits limit v =
    rw (append-nil produced) (v, tt)

quiet_output : (input : Input) → IsQuiet input → loop_output input ≡ []
quiet_output (event (local_data bytes)) h = absurd h
quiet_output (event local_eof) h = refl
quiet_output (event local_error) h = refl
quiet_output (event (carrier_frame _ _ _ _)) h = refl
quiet_output (event (carrier_closed _)) h = refl
quiet_output (loop_head _ _ _) h = refl
quiet_output (opened _ _ _) h = refl
quiet_output open_failed h = refl
quiet_output events_closed h = refl
quiet_output time_passed h = refl

-- Every step of the loop that goes on, events, races and new Carriers alike, keeps all that the local
-- connection has produced from the acknowledged offset on, contiguous, counted and within the limit
-- (which is below `usize::MAX`), and what it sends, for the first time or again after a race, is
-- true: stream bytes are the produced ones at the frame's offset, an end of the stream is sent after
-- it was read and at its length, and no receipt is confirmed beyond the receive offset. The input is
-- one the loop waits for, and what is produced, with what it adds, stays within u64.
pub step-Sends :
    (produced : Bytes) (cfg : Settings) (now : ℕ) (s : Travel) (input : Input)
    → IsU64 (length (produced ++ loop_output input))
    → s.transfer.max_unacked_bytes < u64_max
    → is_awaited s.phase input ≡ true
    → IsSending produced s.transfer
    → LoopKeeps (Sends (produced ++ loop_output input)) Anything (step cfg now s input)
step-Sends produced cfg now s input fits limit awaited v =
    step_cases (Sends (produced ++ loop_output input)) Anything cfg now s input awaited tt
      (λ q. rw (quiet_output input q, append-nil produced) (v, tt))
      (λ q cs id.
        rw (quiet_output input q, append-nil produced)
          (v, again (rw (quiet_output input q, append-nil produced) at fits) cs id))
      (λ ev e.
        rw e (handle_event-Sends produced s.transfer s.carriers s.active ev (rw e at fits) limit v))
      (λ id relay_id n race_id cs e lo hi whole.
        rw (e, append-nil produced)
          (
            acked-IsSending produced (rw (e, append-nil produced) at fits) s.transfer v n lo hi
                whole,
            send_to-IsSound produced s.transfer.local_eof s.transfer.receive_offset cs id
                (race s.transfer.flow_id race_id n) tt,
          ))
      (λ _. tt)
      (λ q race_id.
        rw (quiet_output input q, append-nil produced)
          (
            v,
            send_active-IsSound produced s.transfer.local_eof s.transfer.receive_offset s.carriers
                s.active (race s.transfer.flow_id race_id s.transfer.send_acked) tt,
          ))
  where
    again :
        IsU64 (length produced)
        → (cs : Carriers) (id : Uuid)
        → All
            (IsSound produced s.transfer.local_eof s.transfer.receive_offset)
            (retransmit s.transfer cs id)
    again small cs id =
        unfold retransmit in
        retransmit-IsSound produced small s.transfer.send_acked s.transfer.unacked
          s.transfer.send_offset v.acked_range v.chain v.kept s.transfer.local_eof
          s.transfer.receive_offset cs id s.transfer.flow_id
