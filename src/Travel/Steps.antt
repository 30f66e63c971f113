-- ===== src/Travel/Steps.antt =====
-- A case rule for the steps of the loop of crates/flowsplice-travel-core/src/tcp_flow.rs: only an event
-- and a new Carrier's report change the transfer, and only they, a race and its end send anything.
use flowsplice_rust.Prelude.{
  ℕ, ◌+◌, ◌*◌, ◌≤◌, ◌≡◌, refl, sym, subst, inl, inr, Bool, true, false, not, ◌&&◌, Option, List, [],
  arith, ltb, leb, ◌==◌, if◌then◌else◌, Bool-cases, Option-cases, is_some, is_empty, filter, ok,
  err, ◌>>=◌,
}
use flowsplice_rust.Prelude.Text.{Text}
use flowsplice_rust.Prelude.Bytes.{Bytes}
use flowsplice_rust.Prelude.Maps.{contains_key, insert, nat_eq}
use flowsplice_rust.Protocol.{Uuid, race}
use flowsplice_rust.Flow.State.{Effect}
use flowsplice_rust.Flow.Frames.{send_to, pop_acked, splits}
use flowsplice_rust.Travel.State.{
  Transfer, Event, local_data, local_eof, local_error, carrier_frame, carrier_closed, Carriers,
  Handled,
}
use flowsplice_rust.Travel.Frames.{retransmit, acknowledge, Turn, send_active, handle_event}
use flowsplice_rust.Travel.Racing.{
  Settings, Race, Phase, at_head, waiting, finished, racing, Travel, LoopTurn, advance_reevaluation,
  begin_race, is_attached, select_winner, back_off, close_candidates, no_winner, finish_race,
  next_round, on_opened, winner_of, after_event, race_event,
}
use flowsplice_rust.Travel.{
  Input, loop_head, opened, in_phase, in_race, in_select, on_head, open_failed, event,
  events_closed, time_passed, is_complete, wait_event, step, is_awaited,
}
use flowsplice_rust.Travel.Cases.{Keeps}

abbrev pub LoopKeeps :
    (Transfer → List Effect → Type 0) → (Transfer → List Effect → Type 0) → LoopTurn → Type 0
LoopKeeps Q S (ok (s, effects)) = Q s.transfer effects
LoopKeeps Q S (err stopped) = S stopped.transfer stopped.effects

-- What an acknowledgement removes first.
abbrev pub popped : Travel → ℕ → Transfer
popped s n =
    let (unacked, unacked_bytes) = pop_acked n s.transfer.unacked s.transfer.unacked_bytes in
    record s.transfer { unacked = unacked; unacked_bytes = unacked_bytes }

abbrev pub AnyCarriers :
    (Transfer → List Effect → Type 0) → Transfer → Carriers → List Effect → Bool → Type 0
AnyCarriers Q t cs effects closed = Q t effects

module _ (Q S : Transfer → List Effect → Type 0) where
  LoopKeeps-if :
      (b : Bool) (x y : LoopTurn)
      → (b ≡ true → LoopKeeps Q S x)
      → (b ≡ false → LoopKeeps Q S y)
      → LoopKeeps Q S (if b then x else y)
  LoopKeeps-if true x y f g = f refl
  LoopKeeps-if false x y f g = g refl

  -- The loop goes on with what an event left.
  after_turn :
      (turn : Turn) (next : Handled → Travel)
      → ((h : Handled) → (next h).transfer ≡ h.transfer)
      → Keeps (AnyCarriers Q) S turn
      → LoopKeeps Q S (turn >>= λ h. ok (next h, h.effects))
  after_turn (ok h) next same k = subst (λ t. Q t h.effects) (sym (same h)) k
  after_turn (err stopped) next same k = k

module _ (cfg : Settings) (now : ℕ) where
  no_winner-transfer : (s : Travel) (r : Race) → (no_winner cfg now s r).transfer ≡ s.transfer
  unfolding no_winner back_off advance_reevaluation
  no_winner-transfer s r =
      elim (Bool-cases (is_attached (close_candidates s.carriers r.candidate_ids) r.old_active)) [
        | inl e ↦ rw e
        | inr e ↦ rw e
      ]

  next_round-transfer : (s : Travel) (r : Race) → (next_round cfg now s r).transfer ≡ s.transfer
  unfolding next_round
  next_round-transfer s r =
      elim (Bool-cases (not (is_some s.active) && (r.opens == 0 && is_empty r.candidate_ids))) [
        | inl e ↦ rw e (no_winner-transfer s r)
        | inr e ↦ rw e
      ]

  after_event-transfer :
      (s : Travel) (r : Race) (ev : Event) (h : Handled)
      → (after_event cfg now s r ev h).transfer ≡ h.transfer
  unfolding after_event
  after_event-transfer s r (carrier_closed id) h = next_round-transfer _ _
  after_event-transfer s r (local_data bytes) h = refl
  after_event-transfer s r local_eof h = refl
  after_event-transfer s r local_error h = refl
  after_event-transfer s r (carrier_frame id frame writes closing) h = refl

module _ (Q S : Transfer → List Effect → Type 0) (cfg : Settings) (now : ℕ) (s : Travel) where
  wait_event_cases :
      (ev : Event)
      → Keeps (AnyCarriers Q) S (handle_event s.transfer s.carriers s.active ev)
      → LoopKeeps Q S (wait_event cfg now s ev)
  unfolding wait_event
  wait_event_cases ev k =
      after_turn Q S (handle_event s.transfer s.carriers s.active ev) _
        (λ h. elim (Bool-cases h.closed_active) [ inl e ↦ rw e | inr e ↦ rw e ]) k

module _ (Q S : Transfer → List Effect → Type 0) (cfg : Settings) (now : ℕ) (s : Travel)
    (same : Q s.transfer []) (stops : S s.transfer [])
    (again : (cs : Carriers) (id : Uuid) → Q s.transfer (retransmit s.transfer cs id)) where
  finish_race_cases :
      (r : Race) (winner : Uuid) → LoopKeeps Q S (ok (finish_race cfg now s r winner))
  unfolding finish_race select_winner back_off advance_reevaluation
  finish_race_cases r winner = elim (Bool-cases (contains_key s.carriers winner)) [
    | inl e ↦ rw (e, LoopKeeps) (again (filter (λ c. c.0 == winner) s.carriers) winner)
    | inr e ↦ rw (e, LoopKeeps) same
  ]

  race_event_cases :
      (r : Race) (ev : Event)
      → Keeps (AnyCarriers Q) S (handle_event s.transfer s.carriers s.active ev)
      → LoopKeeps Q S (race_event cfg now s r ev)
  unfolding race_event
  race_event_cases r ev k = elim (Option-cases (winner_of s.transfer r ev)) [
    | inl e ↦
        rw (e, LoopKeeps)
          (after_turn Q S (handle_event s.transfer s.carriers s.active ev)
            (after_event cfg now s r ev) (after_event-transfer cfg now s r ev) k)
    | inr (winner, e) ↦ rw (e, LoopKeeps) (finish_race_cases r winner)
  ]

  on_opened_cases :
      (r : Race) (id : Uuid) (relay_id : Text) (n : ℕ)
      → ((cs : Carriers)
          → s.transfer.send_acked ≤ n
          → n ≤ s.transfer.send_offset
          → splits n (popped s n).unacked ≡ false
          → Q
              (record (popped s n) { send_acked = n })
              (send_to cs id (race s.transfer.flow_id r.race_id n)))
      → S (popped s n) []
      → LoopKeeps Q S (on_opened cfg now s r id relay_id n)
  unfolding on_opened acknowledge
  on_opened_cases r id relay_id n whole split =
      LoopKeeps-if Q S (ltb s.transfer.send_offset n) _ _ (λ _. stops)
        λ sent.
          LoopKeeps-if Q S (ltb n s.transfer.send_acked) _ _ (λ _. stops)
            λ forward. elim (Bool-cases (splits n (popped s n).unacked)) [
              | inl e ↦ rw (e, LoopKeeps) split
              | inr e ↦
                  rw (e, LoopKeeps)
                    (subst
                      (λ t. Q t (
                        send_to (insert s.carriers id relay_id) id
                          (race s.transfer.flow_id r.race_id n)))
                      (sym (next_round-transfer cfg now _ _))
                      (whole (insert s.carriers id relay_id) (ground (arith, forward))
                        (ground (arith, sent)) e))
            ]

  module _ (input : Input)
      (events : (ev : Event)
        → input ≡ event ev
        → Keeps (AnyCarriers Q) S (handle_event s.transfer s.carriers s.active ev))
      (opens : (id : Uuid) (relay_id : Text) (n : ℕ) (race_id : Uuid) (cs : Carriers)
        → input ≡ opened id relay_id n
        → s.transfer.send_acked ≤ n
        → n ≤ s.transfer.send_offset
        → splits n (popped s n).unacked ≡ false
        → Q
            (record (popped s n) { send_acked = n })
            (send_to cs id (race s.transfer.flow_id race_id n)))
      (split : (n : ℕ) → S (popped s n) [])
      (races : (race_id : Uuid)
        → Q s.transfer (
            send_active s.carriers s.active
              (race s.transfer.flow_id race_id s.transfer.send_acked))) where
    on_head_cases :
        (race_id : Uuid) (candidates : List (Option Text)) (permits : ℕ)
        → LoopKeeps Q S (on_head cfg now s race_id candidates permits)
    unfolding on_head begin_race
    on_head_cases race_id candidates permits =
        LoopKeeps-if Q S (is_complete s.transfer) _ _ (λ _. same)
          λ _.
            LoopKeeps-if Q S (is_some s.active && ltb now s.next_reevaluation) _ _ (λ _. same)
              λ _.
                LoopKeeps-if Q S
                  (not (is_some s.active)
                    && ltb (s.recovery_started + cfg.recovery_timeout_secs * 1000) now)
                  _ _ (λ _. stops) (λ _. races race_id)

    in_race_cases : (r : Race) (i : Input) → input ≡ i → LoopKeeps Q S (in_race cfg now s r i)
    unfolding in_race
    in_race_cases r (loop_head race_id candidates permits) e = same
    in_race_cases r (opened id relay_id n) e =
        LoopKeeps-if Q S (r.opens == 0) _ _ (λ _. same)
          λ _. on_opened_cases r id relay_id n (λ cs. opens id relay_id n r.race_id cs e) (split n)
    in_race_cases r open_failed e =
        LoopKeeps-if Q S (r.opens == 0) _ _ (λ _. same)
          λ _. subst (λ t. Q t []) (sym (next_round-transfer cfg now s _)) same
    in_race_cases r (event ev) e = race_event_cases r ev (events ev e)
    in_race_cases r events_closed e = stops
    in_race_cases r time_passed e =
        LoopKeeps-if Q S (leb r.deadline now) _ _
          (λ _. subst (λ t. Q t []) (sym (no_winner-transfer cfg now s r)) same) (λ _. same)

    in_select_cases : (i : Input) → input ≡ i → LoopKeeps Q S (in_select cfg now s i)
    unfolding in_select
    in_select_cases (event ev) e = wait_event_cases Q S cfg now s ev (events ev e)
    in_select_cases events_closed e = stops
    in_select_cases time_passed e =
        LoopKeeps-if Q S (leb s.next_reevaluation now) _ _ (λ _. same) (λ _. same)
    in_select_cases (loop_head _ _ _) e = same
    in_select_cases (opened _ _ _) e = same
    in_select_cases open_failed e = same

    in_phase_cases : (p : Phase) (i : Input) → input ≡ i → LoopKeeps Q S (in_phase cfg now s p i)
    unfolding in_phase
    in_phase_cases at_head (loop_head race_id candidates permits) e =
        on_head_cases race_id candidates permits
    in_phase_cases at_head (opened _ _ _) e = same
    in_phase_cases at_head open_failed e = same
    in_phase_cases at_head (event _) e = same
    in_phase_cases at_head events_closed e = same
    in_phase_cases at_head time_passed e = same
    in_phase_cases waiting i e = in_select_cases i e
    in_phase_cases finished i e = same
    in_phase_cases (racing r) i e = in_race_cases r i e

    quiet_cases : LoopKeeps Q S (step cfg now s input)
    unfolding step
    quiet_cases = in_phase_cases s.phase input refl

-- The input brings nothing from the local connection.
abbrev pub IsQuiet : Input → Type 0
IsQuiet (event (local_data bytes)) = ⊥
IsQuiet _ = Unit {0}

module _ (Q S : Transfer → List Effect → Type 0) (cfg : Settings) (now : ℕ) (s : Travel) where
  data_cases :
      (p : Phase) (bytes : Bytes)
      → is_awaited p (event (local_data bytes)) ≡ true
      → Keeps (AnyCarriers Q) S (handle_event s.transfer s.carriers s.active (local_data bytes))
      → LoopKeeps Q S (in_phase cfg now s p (event (local_data bytes)))
  unfolding in_phase in_select in_race race_event
  data_cases at_head bytes h k = absurd (ground (arith, h))
  data_cases waiting bytes h k = wait_event_cases Q S cfg now s (local_data bytes) k
  data_cases finished bytes h k = absurd (ground (arith, h))
  data_cases (racing r) bytes h k =
      after_turn Q S (handle_event s.transfer s.carriers s.active (local_data bytes))
        (after_event cfg now s r (local_data bytes))
        (after_event-transfer cfg now s r (local_data bytes)) k

  pub step_cases :
      (input : Input)
      → is_awaited s.phase input ≡ true
      → S s.transfer []
      → (IsQuiet input → Q s.transfer [])
      → (IsQuiet input → (cs : Carriers) (id : Uuid) → Q s.transfer (retransmit s.transfer cs id))
      → ((ev : Event)
          → input ≡ event ev
          → Keeps (AnyCarriers Q) S (handle_event s.transfer s.carriers s.active ev))
      → ((id : Uuid) (relay_id : Text) (n : ℕ) (race_id : Uuid) (cs : Carriers)
          → input ≡ opened id relay_id n
          → s.transfer.send_acked ≤ n
          → n ≤ s.transfer.send_offset
          → splits n (popped s n).unacked ≡ false
          → Q
              (record (popped s n) { send_acked = n })
              (send_to cs id (race s.transfer.flow_id race_id n)))
      → ((n : ℕ) → S (popped s n) [])
      → (IsQuiet input
          → (race_id : Uuid)
          → Q s.transfer (
              send_active s.carriers s.active
                (race s.transfer.flow_id race_id s.transfer.send_acked)))
      → LoopKeeps Q S (step cfg now s input)
  unfolding step
  step_cases (event (local_data bytes)) awaited stops same again events opens split races =
      data_cases s.phase bytes awaited (events (local_data bytes) refl)
  step_cases (event local_eof) awaited stops same again events opens split races =
      quiet_cases Q S cfg now s (same tt) stops (again tt) (event local_eof) events opens split
        (races tt)
  step_cases (event local_error) awaited stops same again events opens split races =
      quiet_cases Q S cfg now s (same tt) stops (again tt) (event local_error) events opens split
        (races tt)
  step_cases (event (carrier_frame id frame writes closing)) awaited stops same again events opens
        split races =
      quiet_cases Q S cfg now s (same tt) stops (again tt)
        (event (carrier_frame id frame writes closing)) events opens split (races tt)
  step_cases (event (carrier_closed id)) awaited stops same again events opens split races =
      quiet_cases Q S cfg now s (same tt) stops (again tt) (event (carrier_closed id)) events opens
        split (races tt)
  step_cases (loop_head race_id candidates permits) awaited stops same again events opens split
        races =
      quiet_cases Q S cfg now s (same tt) stops (again tt) (loop_head race_id candidates permits)
        events opens split (races tt)
  step_cases (opened id relay_id n) awaited stops same again events opens split races =
      quiet_cases Q S cfg now s (same tt) stops (again tt) (opened id relay_id n) events opens split
        (races tt)
  step_cases open_failed awaited stops same again events opens split races =
      quiet_cases Q S cfg now s (same tt) stops (again tt) open_failed events opens split (races tt)
  step_cases events_closed awaited stops same again events opens split races =
      quiet_cases Q S cfg now s (same tt) stops (again tt) events_closed events opens split
        (races tt)
  step_cases time_passed awaited stops same again events opens split races =
      quiet_cases Q S cfg now s (same tt) stops (again tt) time_passed events opens split (races tt)
