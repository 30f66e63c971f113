-- ===== src/Travel/Racing.antt =====
-- crates/flowsplice-travel-core/src/tcp_flow.rs: the race for a Carrier (`perform_race`) and what the
-- loop makes of its end.
use flowsplice_rust.Prelude.{
  ℕ, zero, suc, ◌+◌, ◌-◌, ◌*◌, min, Bool, false, not, ◌&&◌, Option, none, some, List, [], ◌∷◌, ltb,
  ◌==◌, if◌then◌else◌, is_some, is_empty, take, filter, Result, ok, err, ◌>>=◌, u64_max,
}
use flowsplice_rust.Prelude.Text.{Text, text_eq}
use flowsplice_rust.Prelude.Maps.{get, contains_key, insert, remove, insert_new, nat_eq}
use flowsplice_rust.Protocol.{Uuid, DataFrame, race, race_ack, race_duplicate}
use flowsplice_rust.Flow.State.{Effect}
use flowsplice_rust.Flow.Frames.{send_to}
use flowsplice_rust.Travel.State.{
  Transfer, Fault, acknowledged_unsent, acknowledgement_moved_back, Event, local_data, local_eof,
  local_error, carrier_frame, carrier_closed, Carriers, Stop, Handled,
}
use flowsplice_rust.Travel.Frames.{retransmit, acknowledge, send_active, is_carrier, handle_event}

-- The configured times (seconds) and the number of Carriers a flow may have.
pub record Settings : Type 0 where
  pub reevaluate_secs : ℕ
  pub max_reevaluate_secs : ℕ
  pub recovery_timeout_secs : ℕ
  pub race_timeout_secs : ℕ
  pub max_carriers : ℕ

-- The local variables of `perform_race`; `opens` counts the attempts to open a Carrier that still run.
pub record Race : Type 0 where
  pub race_id : Uuid
  pub old_active : Option Uuid
  pub candidate_ids : List Uuid
  pub opens : ℕ
  pub deadline : ℕ

-- Where the loop stands: at its head, in its `select!`, in that of a race, or at its end.
pub data Phase : Type 0 where
  at_head waiting finished : Phase
  racing : (race : Race) → Phase

-- The transfer and the local variables of `run_inner`. Times are in milliseconds.
pub record Travel : Type 0 where
  pub transfer : Transfer
  pub carriers : Carriers
  pub active : Option Uuid
  pub phase : Phase
  pub recovery_started : ℕ
  pub retry_backoff : ℕ
  pub reevaluate_secs : ℕ
  pub next_reevaluation : ℕ

abbrev pub LoopTurn : Type 0
LoopTurn = Result Stop (Travel × List Effect)

abbrev pub stop : Travel → Fault → LoopTurn
stop s fault = err (record { fault = fault; transfer = s.transfer; effects = [] })

unfoldable pub advance_reevaluation : ℕ → ℕ → ℕ → Bool → ℕ × ℕ
advance_reevaluation current initial maximum stable =
    let delay = if stable then current else initial in
    (delay, min (min (delay * 2) u64_max) maximum)

-- The Relay of a candidate is the one of the old Carrier.
abbrev pub is_old : Option Text → Option Text → Bool
is_old (some relay) (some old) = text_eq old relay
is_old _ _ = false

-- The attempts started: the old Carrier's Relay is passed over, and without a permit no more start.
unfoldable pub spawned : List (Option Text) → Option Text → ℕ → ℕ
spawned [] old permits = 0
spawned (relay ∷ relays) old permits =
    if is_old relay old
    then spawned relays old permits
    else elim permits [ zero ↦ 0 | suc p ↦ suc (spawned relays old p) ]

abbrev pub relay_of : Carriers → Option Uuid → Option Text
relay_of carriers none = none
relay_of carriers (some id) = get carriers id

unfoldable pub begin_race :
    Settings → ℕ → Travel → Uuid → List (Option Text) → ℕ → Travel × List Effect
begin_race cfg now s race_id candidates permits =
    let slots = cfg.max_carriers - (if is_some s.active then 1 else 0) in
    (
      record s {
        phase = racing (record {
          race_id = race_id;
          old_active = s.active;
          candidate_ids = [];
          opens = spawned (take slots candidates) (relay_of s.carriers s.active) permits;
          deadline = now + cfg.race_timeout_secs * 1000;
        });
      },
      send_active s.carriers s.active (race s.transfer.flow_id race_id s.transfer.send_acked),
    )

abbrev pub is_attached : Carriers → Option Uuid → Bool
is_attached carriers none = false
is_attached carriers (some id) = contains_key carriers id

-- The race ends with the winner: the other Carriers are closed, and the next race is scheduled.
unfoldable pub select_winner : Settings → ℕ → Travel → Race → Uuid → Travel × List Effect
select_winner cfg now s r winner =
    let kept = filter (λ c. c.0 == winner) s.carriers in
    let (delay, next) =
      advance_reevaluation s.reevaluate_secs cfg.reevaluate_secs cfg.max_reevaluate_secs
        (is_carrier r.old_active winner) in
    (
      record s {
        carriers = kept;
        active = some winner;
        phase = waiting;
        recovery_started = now;
        retry_backoff = 250;
        reevaluate_secs = next;
        next_reevaluation = now + delay * 1000;
      },
      retransmit s.transfer kept winner,
    )

-- A race that leaves no Carrier closes all.
abbrev pub close_all : Travel → Travel
close_all s = record s { carriers = []; active = none }

-- Then the back-off is doubled and the loop is at its head again. The sleep before, of
-- `jittered_retry_delay` from the old back-off, is no state: it is the time to the next input, which
-- comes with the input.
unfoldable pub back_off : Travel → Travel
back_off s = record s { phase = at_head; retry_backoff = min (s.retry_backoff * 2) 5000 }

unfoldable pub close_candidates : Carriers → List Uuid → Carriers
close_candidates carriers [] = carriers
close_candidates carriers (id ∷ ids) = close_candidates (remove carriers id) ids

unfoldable pub no_winner : Settings → ℕ → Travel → Race → Travel
no_winner cfg now s r =
    let kept = close_candidates s.carriers r.candidate_ids in
    let (delay, next) =
      advance_reevaluation s.reevaluate_secs cfg.reevaluate_secs cfg.max_reevaluate_secs false in
    if is_attached kept r.old_active
    then record s {
      carriers = kept;
      active = r.old_active;
      phase = waiting;
      reevaluate_secs = next;
      next_reevaluation = now + delay * 1000;
    }
    else back_off (close_all s)

-- A winner that is not attached leaves no Carrier.
unfoldable pub finish_race : Settings → ℕ → Travel → Race → Uuid → Travel × List Effect
finish_race cfg now s r winner =
    if contains_key s.carriers winner
    then select_winner cfg now s r winner
    else (back_off (close_all s), [])

-- The test behind an attempt's end or a closed Carrier: nothing is left that could win.
unfoldable pub next_round : Settings → ℕ → Travel → Race → Travel
next_round cfg now s r =
    if not (is_some s.active) && (r.opens == 0 && is_empty r.candidate_ids)
    then no_winner cfg now s r
    else record s { phase = racing r }

-- A Carrier opened. `home_receive_offset` is what Home said it has received.
unfoldable pub on_opened : Settings → ℕ → Travel → Race → Uuid → Text → ℕ → LoopTurn
on_opened cfg now s r id relay_id home_receive_offset =
    if ltb s.transfer.send_offset home_receive_offset
    then stop s acknowledged_unsent
    else if ltb home_receive_offset s.transfer.send_acked
    then stop s acknowledgement_moved_back
    else do t ← acknowledge s.transfer home_receive_offset; ok (attach t)
  where
    attach : Transfer → Travel × List Effect
    attach t =
        let carriers = insert s.carriers id relay_id in
        (
          next_round cfg now (record s { transfer = t; carriers = carriers })
              (record r { opens = r.opens - 1; candidate_ids = insert_new r.candidate_ids id }),
          send_to carriers id (race t.flow_id r.race_id t.send_acked),
        )

-- The winner that a frame names for this race.
unfoldable pub names_winner : Transfer → Race → DataFrame → Option Uuid
names_winner t r (race_ack flow_id race_id winner) =
    if flow_id == t.flow_id && race_id == r.race_id then some winner else none
names_winner t r (race_duplicate flow_id race_id winner) =
    if flow_id == t.flow_id && race_id == r.race_id then some winner else none
names_winner t r frame = none

abbrev pub winner_of : Transfer → Race → Event → Option Uuid
winner_of t r (carrier_frame id frame writes closing) = names_winner t r frame
winner_of t r ev = none

unfoldable pub remove_candidate : List Uuid → Uuid → List Uuid
remove_candidate ids id = filter (λ j. not (j == id)) ids

-- What follows `handle_event` in a race.
unfoldable pub after_event : Settings → ℕ → Travel → Race → Event → Handled → Travel
after_event cfg now s r ev h =
    let s' = record s {
      transfer = h.transfer;
      carriers = h.carriers;
      active = if h.closed_active then none else s.active;
    } in
    elim ev [
      | carrier_closed id ↦
          next_round cfg now s' (record r { candidate_ids = remove_candidate r.candidate_ids id })
      | local_data bytes ↦ record s' { phase = racing r }
      | local_eof ↦ record s' { phase = racing r }
      | local_error ↦ record s' { phase = racing r }
      | carrier_frame id frame writes closing ↦ record s' { phase = racing r }
    ]

unfoldable pub race_event : Settings → ℕ → Travel → Race → Event → LoopTurn
race_event cfg now s r ev = elim (winner_of s.transfer r ev) [
  | some winner ↦ ok (finish_race cfg now s r winner)
  | none ↦ do
    h ← handle_event s.transfer s.carriers s.active ev
    ok (after_event cfg now s r ev h, h.effects)
]
