-- ===== src/EndToEnd.antt =====
-- The two ends of a TCP flow together: run_flow of crates/flowsplice-home-core/src/tcp_flow.rs and
-- run_inner of crates/flowsplice-travel-core/src/tcp_flow.rs, with Carriers between them that may lose,
-- repeat and reorder frames and may fail and come back, but forge none.
pub mod Invariant
pub mod Delivery
pub mod Bounds
mod Runs
use flowsplice_rust.Prelude.{
  ℕ, zero, suc, ◌+◌, ◌-◌, ◌*◌, ◌/◌, ◌≤◌, ◌<◌, min, max, ◌≡◌, refl, sym, ap, ◌∙◌, subst, ◌≢◌, ◌↔◌,
  ◌⊎◌, inl, inr, Bool, true, false, not, ◌&&◌, ◌||◌, Option, none, some, List, [], ◌∷◌, ◌++◌, map,
  append-nil, append_assoc, arith, ltb, leb, ◌==◌, if◌then◌else◌, ltb→lt, lt→ltb, leb→le, ==_iff,
  Bool-cases, Option-cases, is_some, length, is_empty, take, drop, concat, length-append,
  nil_of_length, take-append-drop, length-take, length-drop, take_front, drop_front, take_nil,
  drop_nil, drop_past, take-add, drop-append, take-append, drop-drop, take_all, concat-append, All,
  All-append, length-reverse, All-reverse, Member, here, there, filter, head, find, Member-filter,
  filter-Member, some_inj, Member-head, Member-find, is_empty-eq, Result, ok, err, ◌>>=◌, ◌>>◌,
  bail_if, ok_or, is_ok, Result-cases, >>=-eq-ok, ok_or-eq-ok, bail_if-eq-ok, >>-eq-ok, ok_inj,
  u64_max, IsU64, saturating_add, checked_add, saturating_add_lem, checked_add_lem,
}
use flowsplice_rust.Prelude.Bytes.{Bytes}
use flowsplice_rust.Prelude.Maps.{nat_eq}
use flowsplice_rust.Protocol.{
  control_frame_limit, data_frame_limit, max_data_payload, data_protocol_binary_v1, Uuid,
  ServiceProtocol, tcp, udp, protocol_eq, DataFrame, open_flow, open_ok, open_error, race, race_ack,
  race_duplicate, stream_data, ack, duplicate, datagram, fin, fin_ack, close, ping, pong,
}
use flowsplice_rust.Flow.State.{
  Config, Flow, Event, carrier_frame, Effect, to_carrier, to_target, shutdown_target, record_metric,
}
use flowsplice_rust.Flow.State
use flowsplice_rust.Flow.{step}
use flowsplice_rust.Flow.Effects.{delivered}
use flowsplice_rust.Flow.Download.{output}
use flowsplice_rust.Travel.State.{carrier_frame as travel_frame}
use flowsplice_rust.Travel.State as Local
use flowsplice_rust.Travel.Racing.{Settings, Travel}
use flowsplice_rust.Travel.{Input, event, opened, is_awaited, begin, step as travel_step}
use flowsplice_rust.Travel.Sends.{loop_output}

-- `up` and `down` are what the local connection and the target have produced, `at_target` and
-- `at_local` what they were given, `to_home` and `to_travel` all frames that were ever sent.
pub record System : Type 0 where
  pub home : Flow
  pub travel : Travel
  pub up : Bytes
  pub down : Bytes
  pub at_target : Bytes
  pub at_local : Bytes
  pub to_home : List DataFrame
  pub to_travel : List DataFrame

abbrev pub frames : List Effect → List DataFrame
frames [] = []
frames (to_carrier id frame ∷ es) = frame ∷ frames es
frames (to_target bytes ∷ es) = frames es
frames (shutdown_target ∷ es) = frames es
frames (record_metric r f v ∷ es) = frames es

-- A frame that arrives was sent.
abbrev pub Arrives : List DataFrame → Event → Type 0
Arrives sent (carrier_frame id frame target) = Member frame sent
Arrives sent _ = Unit {0}

-- On Travel also what an opened Carrier reports is from an `OpenOk` of Home.
abbrev pub ArrivesAtTravel : List DataFrame → Input → Type 0
ArrivesAtTravel sent (event (travel_frame id frame writes closing)) = Member frame sent
ArrivesAtTravel sent (opened id relay_id n) =
    (f : Uuid) × ((c : Uuid) × ((m : ℕ) × ((v : ℕ) × Member (open_ok f c n m v) sent)))
ArrivesAtTravel sent _ = Unit {0}

-- Nothing is read after the end, and the stream stays within u64.
abbrev pub IsRead : Bytes → Bool → Bytes → Type 0
IsRead stream eof bytes = (eof ≡ true → bytes ≡ []) × IsU64 (length (stream ++ bytes))

abbrev pub after_home : System → Event → Flow → List Effect → System
after_home y ev home effects = record y {
  home = home;
  down = y.down ++ output ev;
  at_target = y.at_target ++ delivered effects;
  to_travel = y.to_travel ++ frames effects;
}

abbrev pub after_travel : System → Input → Travel → List Effect → System
after_travel y input travel effects = record y {
  travel = travel;
  up = y.up ++ loop_output input;
  at_local = y.at_local ++ delivered effects;
  to_home = y.to_home ++ frames effects;
}

-- A turn of one end. An end that stops takes no more.
pub data Move (cfg : Config) (set : Settings) : System → System → Type 0 where
  home_moves :
      (y : System) (now : ℕ) (ev : Event) (home : Flow) (effects : List Effect)
      → Arrives y.to_home ev
      → IsRead y.down y.home.target_eof (output ev)
      → step cfg now y.home ev ≡ ok (home, effects)
      → Move cfg set y (after_home y ev home effects)
  travel_moves :
      (y : System) (now : ℕ) (input : Input) (travel : Travel) (effects : List Effect)
      → ArrivesAtTravel y.to_travel input
      → is_awaited y.travel.phase input ≡ true
      → IsRead y.up y.travel.transfer.local_eof (loop_output input)
      → travel_step set now y.travel input ≡ ok (travel, effects)
      → Move cfg set y (after_travel y input travel effects)

abbrev pub initial : Config → Settings → ℕ → ℕ → System
initial cfg set now limit = record {
  home = State.start cfg now;
  travel = begin set now cfg.flow_id limit;
  up = [];
  down = [];
  at_target = [];
  at_local = [];
  to_home = [];
  to_travel = [];
}

-- What any number of turns reaches, from the start of both ends with a limit on Travel's queue.
pub data Reachable (cfg : Config) (set : Settings) (limit : ℕ) : System → Type 0 where
  started : (now : ℕ) → Reachable cfg set limit (initial cfg set now limit)
  turned : (y z : System) → Reachable cfg set limit y → Move cfg set y z → Reachable cfg set limit z
