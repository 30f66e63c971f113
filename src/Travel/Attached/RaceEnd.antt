-- ===== src/Travel/Attached/RaceEnd.antt =====
-- The Carriers of crates/flowsplice-travel-core/src/tcp_flow.rs after a frame, and when a race begins
-- or ends.
use flowsplice_rust.Prelude.{
  by_if, ℕ, ◌+◌, ◌-◌, ◌≤◌, ◌<◌, ◌≡◌, refl, Bool, false, not, ◌&&◌, Option, List, [], arith, ltb,
  ◌==◌, is_some, length, is_empty, take, length-take, ok, saturating_add,
}
use flowsplice_rust.Prelude.Text.{Text}
use flowsplice_rust.Prelude.Maps.{contains_key, contains, nat_eq}
use flowsplice_rust.Prelude.Keys.{Distinct, contains_key-keep_key, Distinct-keep_key}
use flowsplice_rust.Protocol.{Uuid, DataFrame}
use flowsplice_rust.Flow.State.{Effect, Answer}
use flowsplice_rust.Prelude.Bytes.{Bytes}
use flowsplice_rust.Travel.State.{Transfer, Write, Carriers}
use flowsplice_rust.Travel.Frames.{on_frame, on_local_data}
use flowsplice_rust.Travel.Racing.{
  Settings, Race, racing, Travel, advance_reevaluation, relay_of, begin_race, is_attached,
  select_winner, close_all, back_off, close_candidates, no_winner, finish_race, next_round,
}
use flowsplice_rust.Travel.Cases.{
  Keeps, on_frame_cases, on_data_cases, on_ack_cases, on_fin_cases, Keeps-if,
}
use flowsplice_rust.Travel.Sends.{Anything}
use flowsplice_rust.Travel.Attached.{
  Only, Known, IsBounded, Bounded, one_if, one_if_le, length-Only, spawned_le,
  close_candidates-Distinct, contains_key-close_candidates,
}

-- The event left the Carriers alone.
abbrev pub Same : Carriers → Transfer → Carriers → List Effect → Bool → Type 0
Same cs t cs' effects closed = (cs' ≡ cs) × (closed ≡ false)

pub on_frame-Same :
    (t : Transfer) (cs : Carriers) (active : Option Uuid) (id : Uuid) (frame : DataFrame)
    (writes : List Write) (closing : Answer)
    → Keeps (Same cs) Anything (on_frame t cs active id frame writes closing)
on_frame-Same t cs active id frame writes closing =
    on_frame_cases (Same cs) Anything t cs tt active id frame writes closing (refl, refl)
      (λ offset bytes _ _.
        on_data_cases (Same cs) Anything t cs tt active id offset bytes writes (λ _ _. (refl, refl))
          (λ _. tt) (λ _ _. (refl, refl)))
      (λ n _ _ _ _ _. on_ack_cases (Same cs) Anything t cs tt n (λ _. (refl, refl)) tt)
      (λ final_offset _ _ _.
        on_fin_cases (Same cs) Anything t cs tt id final_offset closing (λ _. (refl, refl))
          (λ _. (refl, refl)))
      (λ _. (refl, refl))

pub on_local_data-Same :
    (t : Transfer) (cs : Carriers) (active : Option Uuid) (bytes : Bytes)
    → Keeps (Same cs) Anything (on_local_data t cs active bytes)
unfolding on_local_data
on_local_data-Same t cs active bytes =
    Keeps-if (Same cs) Anything
      (ltb t.max_unacked_bytes (saturating_add t.unacked_bytes (length bytes))) _ _ (λ _. tt)
      (λ _. (refl, refl))

module _ (cfg : Settings) (now : ℕ) (s : Travel) (d : Distinct s.carriers) where
  back_off-IsBounded : IsBounded cfg (back_off (close_all s))
  unfolding back_off contains_key
  back_off-IsBounded = (tt, λ j h. absurd (ground (arith, h)))

  pub no_winner-IsBounded : (r : Race) → Known r s.carriers → IsBounded cfg (no_winner cfg now s r)
  unfolding no_winner advance_reevaluation
  no_winner-IsBounded r known =
      let kept = close_candidates s.carriers r.candidate_ids in
      by_if (IsBounded cfg) (is_attached kept r.old_active) _ (back_off (close_all s))
        (λ e. (
          close_candidates-Distinct s.carriers r.candidate_ids d,
          λ j h.
              let was = contains_key-close_candidates s.carriers r.candidate_ids j h in
              ground (arith, was.0, was.1, known j),
        ))
        (λ e. back_off-IsBounded)

  pub next_round-IsBounded :
      (r : Race)
      → Known r s.carriers
      → length s.carriers + r.opens ≤ cfg.max_carriers
      → IsBounded cfg (next_round cfg now s r)
  unfolding next_round
  next_round-IsBounded r known room =
      by_if (IsBounded cfg) (not (is_some s.active) && (r.opens == 0 && is_empty r.candidate_ids))
        (no_winner cfg now s r) (record s { phase = racing r }) (λ e. no_winner-IsBounded r known)
        (λ e. (d, (known, room)))

  pub finish_race-IsBounded :
      (r : Race) (winner : Uuid) → Bounded cfg (ok (finish_race cfg now s r winner))
  unfolding finish_race select_winner advance_reevaluation
  finish_race-IsBounded r winner =
      by_if (λ p. Bounded cfg (ok p)) (contains_key s.carriers winner) _
        (back_off (close_all s), [])
        (λ e. (
          Distinct-keep_key s.carriers winner d,
          λ j h. ground (arith, contains_key-keep_key s.carriers winner j, h),
        ))
        (λ e. back_off-IsBounded)

  pub begin_race-IsBounded :
      (race_id : Uuid) (candidates : List (Option Text)) (permits : ℕ)
      → 0 < cfg.max_carriers
      → Only s.active s.carriers
      → Bounded cfg (ok (begin_race cfg now s race_id candidates permits))
  unfolding begin_race contains
  begin_race-IsBounded race_id candidates permits some_max only =
      let slots = cfg.max_carriers - one_if s.active in
      (
        d,
        (
          λ j h. ground (arith, only j h),
          omega (
            arith,
            some_max,
            length-Only s.active s.carriers d only,
            one_if_le s.active,
            spawned_le (take slots candidates) (relay_of s.carriers s.active) permits,
            length-take slots candidates,
          ),
        ),
      )
