-- ===== src/Travel/Attached/Steps.antt =====
-- The Carriers of crates/flowsplice-travel-core/src/tcp_flow.rs at each step of the loop.
use flowsplice_rust.Prelude.{
  by_if, ℕ, ◌+◌, ◌*◌, ◌<◌, ◌≡◌, sym, subst, true, false, not, ◌&&◌, Option, none, some, List, [],
  arith, ltb, leb, ◌==◌, is_some, ok,
}
use flowsplice_rust.Prelude.Text.{Text}
use flowsplice_rust.Prelude.Maps.{remove, nat_eq}
use flowsplice_rust.Prelude.Keys.{Distinct, contains_key-remove, Distinct-remove}
use flowsplice_rust.Protocol.{Uuid}
use flowsplice_rust.Travel.State.{
  recovery_expired, Event, local_data, local_eof, local_error, carrier_frame, carrier_closed,
  Carriers,
}
use flowsplice_rust.Travel.Frames.{on_frame, on_local_data, is_carrier, handle_event}
use flowsplice_rust.Travel.Racing.{
  Settings, Phase, at_head, waiting, finished, racing, Travel, stop, begin_race,
}
use flowsplice_rust.Travel.{
  Input, loop_head, opened, open_failed, event, events_closed, time_passed, is_complete, on_head,
  wait_event, in_select, in_phase, step,
}
use flowsplice_rust.Travel.Attached.{Only, Fits, IsBounded, Bounded}
use flowsplice_rust.Travel.Attached.RaceEnd.{
  on_frame-Same, on_local_data-Same, begin_race-IsBounded,
}
use flowsplice_rust.Travel.Attached.InRace.{Bounded-turn, in_race-Bounded}

module _ (cfg : Settings) where
  module _ (now : ℕ) (s : Travel) (d : Distinct s.carriers) (only : Only s.active s.carriers) where
    still-IsBounded : (cs : Carriers) → cs ≡ s.carriers → Distinct cs × Only s.active cs
    still-IsBounded cs e = subst (λ m. Distinct m × Only s.active m) (sym e) (d, only)

    lost-Only : (id : Uuid) → Only s.active (remove s.carriers id)
    lost-Only id j h = ground (arith, h, contains_key-remove s.carriers id j, only j)

    lost_active-Only :
        (id : Uuid) → is_carrier s.active id ≡ true → Only none (remove s.carriers id)
    lost_active-Only id was j h = absurd (
        same_carrier s.active id j was
          (only j (ground (arith, h, contains_key-remove s.carriers id j)))
          (ground (arith, h, contains_key-remove s.carriers id j)))
      where
        same_carrier :
            (active : Option Uuid) (id j : Uuid)
            → is_carrier active id ≡ true
            → is_carrier active j ≡ true
            → (id == j) ≡ false
            → ⊥
        same_carrier none id j a b c = ground (arith, a)
        same_carrier (some k) id j a b c = ground (arith, a, b, c)

    wait_event-Bounded : (ev : Event) → Bounded cfg (wait_event cfg now s ev)
    unfolding wait_event handle_event
    wait_event-Bounded (local_data bytes) =
        Bounded-turn cfg s.carriers (on_local_data s.transfer s.carriers s.active bytes) _
          (on_local_data-Same s.transfer s.carriers s.active bytes)
          (λ h e open_. rw open_ (still-IsBounded h.carriers e))
    wait_event-Bounded local_eof = (d, only)
    wait_event-Bounded local_error = tt
    wait_event-Bounded (carrier_closed id) =
        by_if (λ y. Bounded cfg (ok (y, []))) (is_carrier s.active id) _ _
          (λ was. (Distinct-remove s.carriers id d, lost_active-Only id was))
          (λ _. (Distinct-remove s.carriers id d, lost-Only id))
    wait_event-Bounded (carrier_frame id frame writes closing) =
        Bounded-turn cfg s.carriers
          (on_frame s.transfer s.carriers s.active id frame writes closing) _
          (on_frame-Same s.transfer s.carriers s.active id frame writes closing)
          (λ h e open_. rw open_ (still-IsBounded h.carriers e))

    on_head-Bounded :
        (race_id : Uuid) (candidates : List (Option Text)) (permits : ℕ)
        → 0 < cfg.max_carriers
        → Bounded cfg (on_head cfg now s race_id candidates permits)
    unfolding on_head
    on_head-Bounded race_id candidates permits some_max =
        by_if (Bounded cfg) (is_complete s.transfer) (ok (record s { phase = finished }, [])) _
          (λ _. (d, only))
          λ _.
            by_if (Bounded cfg) (is_some s.active && ltb now s.next_reevaluation)
              (ok (record s { phase = waiting }, [])) _ (λ _. (d, only))
              λ _.
                by_if (Bounded cfg)
                  (not (is_some s.active)
                    && ltb (s.recovery_started + cfg.recovery_timeout_secs * 1000) now)
                  (stop s recovery_expired) (ok (begin_race cfg now s race_id candidates permits))
                  (λ _. tt)
                  (λ _. begin_race-IsBounded cfg now s d race_id candidates permits some_max only)

    in_select-Bounded : (input : Input) → IsBounded cfg s → Bounded cfg (in_select cfg now s input)
    unfolding in_select
    in_select-Bounded (event ev) bounded = wait_event-Bounded ev
    in_select-Bounded events_closed bounded = tt
    in_select-Bounded time_passed bounded =
        by_if (Bounded cfg) (leb s.next_reevaluation now) (ok (record s { phase = at_head }, []))
          (ok (s, [])) (λ _. (d, only)) (λ _. bounded)
    in_select-Bounded (loop_head _ _ _) bounded = bounded
    in_select-Bounded (opened _ _ _) bounded = bounded
    in_select-Bounded open_failed bounded = bounded

  in_phase-Bounded :
      (now : ℕ) (s : Travel) (p : Phase) (input : Input)
      → 0 < cfg.max_carriers
      → IsBounded cfg s
      → Fits cfg s p
      → Bounded cfg (in_phase cfg now s p input)
  unfolding in_phase
  in_phase-Bounded now s at_head (loop_head race_id candidates permits) some_max bounded fits =
      on_head-Bounded now s bounded.0 fits race_id candidates permits some_max
  in_phase-Bounded now s at_head (opened _ _ _) some_max bounded fits = bounded
  in_phase-Bounded now s at_head open_failed some_max bounded fits = bounded
  in_phase-Bounded now s at_head (event _) some_max bounded fits = bounded
  in_phase-Bounded now s at_head events_closed some_max bounded fits = bounded
  in_phase-Bounded now s at_head time_passed some_max bounded fits = bounded
  in_phase-Bounded now s waiting input some_max bounded fits =
      in_select-Bounded now s bounded.0 fits input bounded
  in_phase-Bounded now s finished input some_max bounded fits = bounded
  in_phase-Bounded now s (racing r) input some_max bounded fits =
      in_race-Bounded cfg now s bounded.0 r fits.0 fits.1 input bounded

  -- In a step that goes on the Carriers stay within the limit of one flow, which is not 0: in a race
  -- those attached and those being opened are together no more than it, and each attached one is the
  -- old active Carrier or a candidate; outside a race none but the active one is attached; no Carrier
  -- is attached twice.
  pub step-Bounded :
      (now : ℕ) (s : Travel) (input : Input)
      → 0 < cfg.max_carriers
      → IsBounded cfg s
      → Bounded cfg (step cfg now s input)
  unfolding step
  step-Bounded now s input some_max bounded =
      in_phase-Bounded now s s.phase input some_max bounded bounded.1
