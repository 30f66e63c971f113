-- ===== src/Travel/Attached/InRace.antt =====
-- The Carriers of crates/flowsplice-travel-core/src/tcp_flow.rs during a race.
use flowsplice_rust.Prelude.{
  by_if, ℕ, ◌+◌, ◌-◌, ◌≤◌, ◌<◌, ◌≡◌, sym, subst, inl, inr, false, Option, none, List, [], arith,
  ltb, leb, ◌==◌, if◌then◌else◌, Option-cases, length, Result, ok, err, ◌>>=◌,
}
use flowsplice_rust.Prelude.Text.{Text}
use flowsplice_rust.Prelude.Maps.{insert, remove, insert_new, contains-insert_new, nat_eq}
use flowsplice_rust.Prelude.Keys.{
  Distinct, contains_key-insert, contains_key-remove, Distinct-insert, Distinct-remove,
  length-insert_le, length-remove_le,
}
use flowsplice_rust.Protocol.{Uuid}
use flowsplice_rust.Flow.State.{Effect}
use flowsplice_rust.Travel.State.{
  Transfer, acknowledged_unsent, acknowledgement_moved_back, Event, local_data, local_eof,
  local_error, carrier_frame, carrier_closed, Carriers, Stop, Handled,
}
use flowsplice_rust.Travel.Frames.{
  acknowledge, Turn, on_frame, on_local_data, is_carrier, handle_event,
}
use flowsplice_rust.Travel.Racing.{
  Settings, Race, Travel, LoopTurn, stop, no_winner, next_round, on_opened, names_winner,
  remove_candidate, after_event, race_event,
}
use flowsplice_rust.Travel.{
  Input, loop_head, opened, open_failed, event, events_closed, time_passed, in_race,
}
use flowsplice_rust.Travel.Cases.{Keeps}
use flowsplice_rust.Travel.Sends.{Anything}
use flowsplice_rust.Travel.Attached.{Known, IsBounded, Bounded, contains-remove_candidate}
use flowsplice_rust.Travel.Attached.RaceEnd.{
  Same, on_frame-Same, on_local_data-Same, no_winner-IsBounded, next_round-IsBounded,
  finish_race-IsBounded,
}

module _ (cfg : Settings) where
  Bounded-bind :
      {A : Type 0} (first : Result Stop A) (k : A → LoopTurn)
      → ((a : A) → Bounded cfg (k a))
      → Bounded cfg (first >>= k)
  Bounded-bind (ok a) k h = h a
  Bounded-bind (err stopped) k h = tt

  pub Bounded-turn :
      (cs : Carriers) (first : Turn) (k : Handled → Travel × List Effect)
      → Keeps (Same cs) Anything first
      → ((h : Handled) → h.carriers ≡ cs → h.closed_active ≡ false → Bounded cfg (ok (k h)))
      → Bounded cfg (first >>= λ h. ok (k h))
  Bounded-turn cs (ok h) k same then_ = then_ h same.0 same.1
  Bounded-turn cs (err stopped) k same then_ = tt

  module _ (now : ℕ) (s : Travel) (d : Distinct s.carriers) (r : Race) (known : Known r s.carriers)
      (room : length s.carriers + r.opens ≤ cfg.max_carriers) where
    on_opened-Bounded :
        (id : Uuid) (relay_id : Text) (n : ℕ)
        → 0 < r.opens
        → Bounded cfg (on_opened cfg now s r id relay_id n)
    unfolding on_opened
    on_opened-Bounded id relay_id n running =
        by_if (Bounded cfg) (ltb s.transfer.send_offset n) (stop s acknowledged_unsent) _ (λ _. tt)
          λ _.
            by_if (Bounded cfg) (ltb n s.transfer.send_acked) (stop s acknowledgement_moved_back) _
              (λ _. tt)
              λ _. Bounded-bind (acknowledge s.transfer n) _ λ t.
                next_round-IsBounded cfg now
                  (record s { transfer = t; carriers = insert s.carriers id relay_id })
                  (Distinct-insert s.carriers id relay_id d)
                  (record r { opens = r.opens - 1; candidate_ids = insert_new r.candidate_ids id })
                  (λ j h. ground (
                    arith,
                    h,
                    contains_key-insert s.carriers id relay_id j,
                    contains-insert_new r.candidate_ids id j,
                    known j,
                  ))
                  (omega (arith, running, room, length-insert_le s.carriers id relay_id))

    stays-IsBounded :
        (cs : Carriers)
        → cs ≡ s.carriers
        → Distinct cs × (Known r cs × (length cs + r.opens ≤ cfg.max_carriers))
    stays-IsBounded cs e =
        subst (λ m. Distinct m × (Known r m × (length m + r.opens ≤ cfg.max_carriers))) (sym e)
          (d, (known, room))

    lose-IsBounded :
        (id : Uuid) (t : Transfer) (active : Option Uuid)
        → IsBounded cfg (
            next_round cfg now
              (record s { transfer = t; carriers = remove s.carriers id; active = active })
              (record r { candidate_ids = remove_candidate r.candidate_ids id }))
    lose-IsBounded id t active =
        next_round-IsBounded cfg now
          (record s { transfer = t; carriers = remove s.carriers id; active = active })
          (Distinct-remove s.carriers id d)
          (record r { candidate_ids = remove_candidate r.candidate_ids id })
          (λ j h. ground (
            arith,
            h,
            contains_key-remove s.carriers id j,
            contains-remove_candidate r.candidate_ids id j,
            known j,
          ))
          (omega (arith, room, length-remove_le s.carriers id))

    race_event-Bounded : (ev : Event) → Bounded cfg (race_event cfg now s r ev)
    unfolding race_event handle_event after_event
    race_event-Bounded (local_data bytes) =
        Bounded-turn s.carriers (on_local_data s.transfer s.carriers s.active bytes) _
          (on_local_data-Same s.transfer s.carriers s.active bytes)
          (λ h e _. stays-IsBounded h.carriers e)
    race_event-Bounded local_eof = (d, (known, room))
    race_event-Bounded local_error = tt
    race_event-Bounded (carrier_closed id) =
        lose-IsBounded id s.transfer (if is_carrier s.active id then none else s.active)
    race_event-Bounded (carrier_frame id frame writes closing) =
        elim (Option-cases (names_winner s.transfer r frame)) [
          | inl e ↦
              rw (e, Bounded, race_event)
                (Bounded-turn s.carriers
                  (on_frame s.transfer s.carriers s.active id frame writes closing) _
                  (on_frame-Same s.transfer s.carriers s.active id frame writes closing)
                  (λ h same _. stays-IsBounded h.carriers same))
          | inr (winner, e) ↦
              rw (e, Bounded, race_event) (finish_race-IsBounded cfg now s d r winner)
        ]

    pub in_race-Bounded :
        (input : Input) → IsBounded cfg s → Bounded cfg (in_race cfg now s r input)
    unfolding in_race
    in_race-Bounded (loop_head _ _ _) bounded = bounded
    in_race-Bounded (opened id relay_id n) bounded =
        by_if (Bounded cfg) (r.opens == 0) (ok (s, [])) (on_opened cfg now s r id relay_id n)
          (λ _. bounded) (λ e. on_opened-Bounded id relay_id n (ground (arith, e)))
    in_race-Bounded open_failed bounded =
        by_if (Bounded cfg) (r.opens == 0) (ok (s, [])) _ (λ _. bounded)
          (λ _.
            next_round-IsBounded cfg now s d (record r { opens = r.opens - 1 }) known
              (omega (arith, room)))
    in_race-Bounded (event ev) bounded = race_event-Bounded ev
    in_race-Bounded events_closed bounded = tt
    in_race-Bounded time_passed bounded =
        by_if (Bounded cfg) (leb r.deadline now) (ok (no_winner cfg now s r, [])) (ok (s, []))
          (λ _. no_winner-IsBounded cfg now s d r known) (λ _. bounded)
