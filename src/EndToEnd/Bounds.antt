-- ===== src/EndToEnd/Bounds.antt =====
-- How many Carriers a TCP flow has (crates/flowsplice-travel-core/src/tcp_flow.rs).
use flowsplice_rust.Prelude.{ℕ, ◌≤◌, ◌<◌, subst, arith, length}
use flowsplice_rust.Prelude.Maps.{nat_eq, contains_key}
use flowsplice_rust.Protocol.{Uuid}
use flowsplice_rust.Flow.State.{Config}
use flowsplice_rust.Travel.Racing.{Settings, Phase, at_head, waiting, finished, racing, Travel}
use flowsplice_rust.Travel.{begin}
use flowsplice_rust.Travel.Attached.{IsBounded, Bounded, Only, Fits, length-Only, one_if_le}
use flowsplice_rust.Travel.Attached.Steps.{step-Bounded}
use flowsplice_rust.EndToEnd.{System, Move, home_moves, travel_moves, Reachable, started, turned}

begin-IsBounded :
    (set : Settings) (now : ℕ) (id : Uuid) (limit : ℕ) → IsBounded set (begin set now id limit)
unfolding begin contains_key
begin-IsBounded set now id limit = (tt, λ j h. absurd (ground (arith, h)))

Move-IsBounded :
    (cfg : Config) (set : Settings)
    → 0 < set.max_carriers
    → (y z : System) → Move cfg set y z
    → IsBounded set y.travel
    → IsBounded set z.travel
Move-IsBounded cfg set some_max y _ (home_moves _ now ev home effects arrives read e) b = b
Move-IsBounded cfg set some_max y _ (travel_moves _ now input travel effects arrives awaited read e)
      b =
    subst (Bounded set) e (step-Bounded set now y.travel input some_max b)

Reachable-IsBounded :
    (cfg : Config) (set : Settings) (limit : ℕ)
    → 0 < set.max_carriers
    → (y : System) → Reachable cfg set limit y
    → IsBounded set y.travel
Reachable-IsBounded cfg set limit some_max _ (started now) =
    begin-IsBounded set now cfg.flow_id limit
Reachable-IsBounded cfg set limit some_max _ (turned y z reached move) =
    Move-IsBounded cfg set some_max y z move (Reachable-IsBounded cfg set limit some_max y reached)

IsBounded-length :
    (set : Settings) (s : Travel)
    → 0 < set.max_carriers
    → IsBounded set s
    → length s.carriers ≤ set.max_carriers
IsBounded-length set s some_max b = by_phase s.phase b.1
  where
    alone : Only s.active s.carriers → length s.carriers ≤ set.max_carriers
    alone o = omega (arith, some_max, length-Only s.active s.carriers b.0 o, one_if_le s.active)

    by_phase : (p : Phase) → Fits set s p → length s.carriers ≤ set.max_carriers
    by_phase at_head o = alone o
    by_phase waiting o = alone o
    by_phase finished o = alone o
    by_phase (racing r) f = omega (arith, f.1)

-- Through all races, losses and recoveries a flow never has more Carriers attached at a time than the
-- configured number, which is not 0.
pub Reachable-carriers_le :
    (cfg : Config) (set : Settings) (limit : ℕ)
    → 0 < set.max_carriers
    → (y : System) → Reachable cfg set limit y
    → length y.travel.carriers ≤ set.max_carriers
Reachable-carriers_le cfg set limit some_max y reached =
    IsBounded-length set y.travel some_max (Reachable-IsBounded cfg set limit some_max y reached)
