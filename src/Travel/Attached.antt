-- ===== src/Travel/Attached.antt =====
-- How many Carriers the Travel flow of crates/flowsplice-travel-core/src/tcp_flow.rs has at a time.
pub mod RaceEnd
pub mod InRace
pub mod Steps
use flowsplice_rust.Prelude.{
  ℕ, zero, suc, ◌+◌, ◌-◌, ◌*◌, ◌/◌, ◌≤◌, ◌<◌, min, max, ◌≡◌, refl, sym, ap, ◌∙◌, subst, ◌≢◌, ◌↔◌,
  ◌⊎◌, inl, inr, Bool, true, false, not, ◌&&◌, ◌||◌, Option, none, some, List, [], ◌∷◌, ◌++◌, map,
  append-nil, append_assoc, arith, ltb, leb, ◌==◌, if◌then◌else◌, ltb→lt, lt→ltb, leb→le, ==_iff,
  Bool-cases, Option-cases, is_some, length, is_empty, take, drop, concat, length-append,
  nil_of_length, take-append-drop, length-take, length-drop, take_front, drop_front, take_nil,
  drop_nil, drop_past, take-add, drop-append, take-append, drop-drop, take_all, concat-append, All,
  All-append, length-reverse, All-reverse, Member, here, there, filter, head, find, Member-filter,
  filter-Member, some_inj, Member-head, Member-find, is_empty-eq, Result, ok, err, ◌>>=◌, ◌>>◌,
  bail_if, ok_or, is_ok, Result-cases, >>=-eq-ok, ok_or-eq-ok, bail_if-eq-ok, >>-eq-ok, ok_inj,
  u64_max, IsU64, saturating_add, checked_add, saturating_add_lem, checked_add_lem,
}
use flowsplice_rust.Prelude.Text.{Text}
use flowsplice_rust.Prelude.Maps.{
  contains_key, insert, remove, contains, insert_new, contains-insert_new, nat_eq,
}
use flowsplice_rust.Prelude.Keys.{
  Distinct, contains_key-insert, contains_key-remove, keep_key, contains_key-keep_key,
  Distinct-insert, Distinct-remove, Distinct-keep_key, length-insert_le, length-remove_le,
}
use flowsplice_rust.Protocol.{
  control_frame_limit, data_frame_limit, max_data_payload, data_protocol_binary_v1, Uuid,
  ServiceProtocol, tcp, udp, protocol_eq, DataFrame, open_flow, open_ok, open_error, race, race_ack,
  race_duplicate, stream_data, ack, duplicate, datagram, fin, fin_ack, close, ping, pong,
}
use flowsplice_rust.Flow.State.{Effect, Answer}
use flowsplice_rust.Prelude.Bytes.{Bytes}
use flowsplice_rust.Travel.State.{
  Transfer, start, Fault, unacked_limit, local_failed, write_timed_out, write_failed,
  write_returned_zero, shutdown_timed_out, shutdown_failed, non_contiguous, ack_split_frame,
  home_closed, invalid_frame, acknowledged_unsent, acknowledgement_moved_back, winner_vanished,
  recovery_expired, channel_closed, Write, wrote, write_error, Event, local_data, local_eof,
  local_error, carrier_frame, carrier_closed, Carriers, Stop, Handled,
}
use flowsplice_rust.Travel.Frames.{
  retransmit, acknowledge, Turn, bail, handled, Written, write_all, accept, on_data, on_ack, on_fin,
  on_frame, send_active, on_local_data, is_carrier, handle_event,
}
use flowsplice_rust.Travel.Racing.{
  Settings, Race, Phase, at_head, waiting, finished, racing, Travel, LoopTurn, stop,
  advance_reevaluation, is_old, spawned, relay_of, begin_race, is_attached, select_winner, back_off,
  close_candidates, no_winner, finish_race, next_round, on_opened, names_winner, winner_of,
  remove_candidate, after_event, race_event,
}
use flowsplice_rust.Travel.{
  Input, loop_head, opened, open_failed, event, events_closed, time_passed, is_complete, on_head,
  wait_event, in_race, in_select, in_phase, is_awaited, step, begin,
}
use flowsplice_rust.Travel.Cases.{
  Keeps, on_frame_cases, on_data_cases, on_ack_cases, on_fin_cases, Keeps-if,
}
use flowsplice_rust.Travel.Sends.{Anything}

-- Every attached Carrier is the one given.
abbrev pub Only : Option Uuid → Carriers → Type 0
Only active cs = (j : Uuid) → contains_key cs j ≡ true → is_carrier active j ≡ true

-- Every attached Carrier is the old one or a candidate.
abbrev pub Known : Race → Carriers → Type 0
Known r cs =
    (j : Uuid)
    → contains_key cs j ≡ true
    → (is_carrier r.old_active j || contains r.candidate_ids j) ≡ true

abbrev pub Fits : Settings → Travel → Phase → Type 0
Fits cfg s (racing r) = Known r s.carriers × (length s.carriers + r.opens ≤ cfg.max_carriers)
Fits cfg s _ = Only s.active s.carriers

-- Outside a race no Carrier but the active one is attached; in a race those attached and those being
-- opened are within the limit.
abbrev pub IsBounded : Settings → Travel → Type 0
IsBounded cfg s = Distinct s.carriers × Fits cfg s s.phase

abbrev pub Bounded : Settings → LoopTurn → Type 0
Bounded cfg (ok (s, effects)) = IsBounded cfg s
Bounded cfg (err stopped) = Unit {0}

abbrev pub one_if : Option Uuid → ℕ
one_if active = if is_some active then 1 else 0

pub one_if_le : (active : Option Uuid) → one_if active ≤ 1
one_if_le none = omega arith
one_if_le (some a) = omega arith

pub length-Only :
    (active : Option Uuid) (cs : Carriers)
    → Distinct cs
    → Only active cs
    → length cs ≤ one_if active
unfolding contains_key
length-Only none [] d o = omega arith
length-Only (some a) [] d o = omega arith
length-Only none ((k, v) ∷ cs) d o = absurd (ground (arith, o k (ground arith)))
length-Only (some a) ((k, v) ∷ []) d o = omega arith
length-Only (some a) ((k, v) ∷ ((i, w) ∷ cs)) d o =
    absurd (ground (arith, d.0, o k (ground arith), o i (ground arith)))

pub spawned_le :
    (relays : List (Option Text)) (old : Option Text) (permits : ℕ)
    → spawned relays old permits ≤ length relays
unfolding spawned
spawned_le [] old permits = omega arith
spawned_le (relay ∷ relays) old zero = ground (arith, spawned_le relays old zero)
spawned_le (relay ∷ relays) old (suc p) =
    ground (arith, spawned_le relays old (suc p), spawned_le relays old p)

pub contains-remove_candidate :
    (ids : List Uuid) (id j : Uuid)
    → contains (remove_candidate ids id) j ≡ (not (id == j) && contains ids j)
unfolding remove_candidate contains
contains-remove_candidate [] id j = ground arith
contains-remove_candidate (i ∷ ids) id j = ground (arith, contains-remove_candidate ids id j)

pub close_candidates-Distinct :
    (cs : Carriers) (ids : List Uuid) → Distinct cs → Distinct (close_candidates cs ids)
unfolding close_candidates
close_candidates-Distinct cs [] d = d
close_candidates-Distinct cs (id ∷ ids) d =
    close_candidates-Distinct (remove cs id) ids (Distinct-remove cs id d)

pub contains_key-close_candidates :
    (cs : Carriers) (ids : List Uuid) (j : Uuid)
    → contains_key (close_candidates cs ids) j ≡ true
    → (contains_key cs j ≡ true) × (contains ids j ≡ false)
unfolding close_candidates contains
contains_key-close_candidates cs [] j h = (h, refl)
contains_key-close_candidates cs (id ∷ ids) j h =
    let ih = contains_key-close_candidates (remove cs id) ids j h in
    ground (arith, ih.0, ih.1, contains_key-remove cs id j)
