-- ===== src/Travel/Schedule.antt =====
-- When the races of crates/flowsplice-travel-core/src/tcp_flow.rs are held.
use flowsplice_rust.Prelude.{◌^◌}
use flowsplice_rust.Prelude.{ℕ, ◌*◌, ◌≤◌, min, ◌≡◌, true, some, List, [], ◌∷◌, IsU64}
use flowsplice_rust.Prelude.Maps.{nat_eq, contains_key}
use flowsplice_rust.Protocol.{Uuid}
use flowsplice_rust.Travel.Racing.{Settings, Race, Travel, finish_race}

-- The loop after races that the Carrier has won at these times, one after the other.
unfoldable pub after_wins : Settings → Uuid → List (ℕ × Race) → Travel → Travel
after_wins cfg winner [] s = s
after_wins cfg winner ((now, r) ∷ races) s =
    after_wins cfg winner races (finish_race cfg now s r winner).0

-- The winner held the flow already.
abbrev pub IsHeld : Uuid → ℕ × Race → Type 0
IsHeld winner (now, r) = r.old_active ≡ some winner

module _ (cfg : Settings) (low : cfg.reevaluate_secs ≤ cfg.max_reevaluate_secs)
    (small : IsU64 cfg.max_reevaluate_secs) (winner : Uuid) where
  -- The delay that the loop holds after so many such races.
  abbrev delay : ℕ → ℕ
  delay n = min (cfg.reevaluate_secs * 2 ^ n) cfg.max_reevaluate_secs

  record IsAfter (n : ℕ) (s : Travel) : Type 0 where
    attached : contains_key s.carriers winner ≡ true
    held : s.reevaluate_secs ≡ delay n
