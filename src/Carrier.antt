-- ===== src/Carrier.antt =====
-- internal/flowsplice-core/src/carrier.rs: the pump of one Carrier between its socket, the flow's
-- events and the flow's outgoing frames.
pub mod Order
mod Runs
use flowsplice_rust.Prelude.{
  ℕ, zero, suc, ◌+◌, ◌-◌, ◌*◌, ◌/◌, ◌%◌, ◌≤◌, ◌<◌, min, max, ◌≡◌, refl, sym, ap, ◌∙◌, subst, ◌≢◌,
  ◌↔◌, ◌⊎◌, inl, inr, Bool, true, false, not, ◌&&◌, ◌||◌, Option, none, some, List, [], ◌∷◌, ◌++◌,
  map, append-nil, append_assoc, arith, ltb, leb, ◌==◌, if◌then◌else◌, ltb→lt, lt→ltb, leb→le,
  ==_iff, Bool-cases, Option-cases, is_some, length, is_empty, take, drop, concat, length-append,
  nil_of_length, take-append-drop, length-take, length-drop, take_front, drop_front, take_nil,
  drop_nil, drop_past, take-add, drop-append, take-append, drop-drop, take_all, concat-append, All,
  All-append, length-reverse, All-reverse, Member, here, there, filter, head, find, Member-filter,
  filter-Member, some_inj, Member-head, Member-find, is_empty-eq, Result, ok, err, ◌>>=◌, ◌>>◌,
  bail_if, ok_or, is_ok, Result-cases, >>=-eq-ok, ok_or-eq-ok, bail_if-eq-ok, >>-eq-ok, ok_inj,
  u64_max, IsU64, saturating_add, checked_add, saturating_add_lem, checked_add_lem,
}
use flowsplice_rust.Protocol.{
  control_frame_limit, data_frame_limit, max_data_payload, data_protocol_binary_v1, Uuid,
  ServiceProtocol, tcp, udp, protocol_eq, DataFrame, open_flow, open_ok, open_error, race, race_ack,
  race_duplicate, stream_data, ack, duplicate, datagram, fin, fin_ack, close, ping, pong,
}

-- The local variables of `run_data_carrier`. Times are in milliseconds.
pub record Pump : Type 0 where
  pub nonce : ℕ
  pub last_received : ℕ
  pub pending : Option DataFrame

unfoldable pub new_pump : ℕ → Pump
new_pump now = record { nonce = 0; last_received = now; pending = none }

-- What a branch of `select!` is ready with. `written` says whether the frame that the branch may write
-- reached the socket in time.
pub data Input : Type 0 where
  event_room : Input
  event_receiver_closed : Input
  outgoing : (frame : DataFrame) (written : Bool) → Input
  outgoing_closed : Input
  incoming : (frame : DataFrame) (written : Bool) → Input
  read_failed : Input
  tick : (written : Bool) → Input

pub data Effect : Type 0 where
  to_flow : (frame : DataFrame) → Effect
  write_frame : (frame : DataFrame) → Effect
  write_pong write_ping : (nonce : ℕ) → Effect

pub data Fault : Type 0 where
  receiver_closed write_failed transport_failed receive_timed_out heartbeat_timed_out : Fault

-- The pump goes on, returns, or fails.
pub data Turn : Type 0 where
  going : (s : Pump) (effects : List Effect) → Turn
  returned : Turn
  failed : (fault : Fault) → Turn

-- The conditions of the branches: events are reserved for a pending one only, and nothing is read
-- while one is pending.
unfoldable pub is_enabled : Pump → Input → Bool
is_enabled s event_room = is_some s.pending
is_enabled s event_receiver_closed = is_some s.pending
is_enabled s (incoming frame written) = not (is_some s.pending)
is_enabled s read_failed = not (is_some s.pending)
is_enabled s _ = true

-- `write_data_frame` and the `?` behind it.
unfoldable pub after_write : Bool → Pump → Effect → Turn
after_write written s effect = if written then going s (effect ∷ []) else failed write_failed

unfoldable pub on_room : Pump → Turn
on_room s = elim s.pending [
  | none ↦ going s []
  | some frame ↦ going (record s { pending = none }) (to_flow frame ∷ [])
]

unfoldable pub on_incoming : ℕ → Pump → DataFrame → Bool → Turn
on_incoming now s (ping nonce) written =
    after_write written (record s { last_received = now }) (write_pong nonce)
on_incoming now s (pong nonce) written = going (record s { last_received = now }) []
on_incoming now s frame written = going (record s { last_received = now; pending = some frame }) []

unfoldable pub on_tick : ℕ → ℕ → Pump → Bool → Turn
on_tick timeout now s written =
    let nonce = (s.nonce + 1) % 18446744073709551616 in
    if ltb timeout (now - s.last_received)
    then failed (if is_some s.pending then receive_timed_out else heartbeat_timed_out)
    else after_write written (record s { nonce = nonce }) (write_ping nonce)

unfoldable pub step : ℕ → ℕ → Pump → Input → Turn
step timeout now s event_room = on_room s
step timeout now s event_receiver_closed = failed receiver_closed
step timeout now s (outgoing frame written) = after_write written s (write_frame frame)
step timeout now s outgoing_closed = returned
step timeout now s (incoming frame written) = on_incoming now s frame written
step timeout now s read_failed = failed transport_failed
step timeout now s (tick written) = on_tick timeout now s written
