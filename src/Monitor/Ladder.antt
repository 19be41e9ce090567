-- ===== src/Monitor/Ladder.antt =====
-- How long a lock of server/src/monitor.cpp lasts.
use encoder_next.Prelude.{
  ℕ, zero, suc, ◌+◌, ◌≤◌, ◌≡◌, refl, false, List, Bytes, leb, if◌then◌else◌, ℤ, pos, ◌+ℤ◌, ◌≤ℤ◌,
  ltb_ℤ, arith,
}
use encoder_next.Monitor.{
  UserStats, Alert, Entry, lock_ladder_sec, choose_lock_duration, raise, max_ℤ,
}

-- The ladder as a step function of the strike level.
abbrev pub rung : ℕ → ℕ
rung n =
    if leb n 1
    then 60
    else if leb n 2
    then 300
    else if leb n 3
    then 600
    else if leb n 4
    then 1800
    else if leb n 5
    then 3600
    else 7200

ladder-rung : (n : ℕ) → lock_ladder_sec n ≡ rung n
unfolding lock_ladder_sec
ladder-rung zero = refl
ladder-rung (suc zero) = refl
ladder-rung (suc (suc zero)) = refl
ladder-rung (suc (suc (suc zero))) = refl
ladder-rung (suc (suc (suc (suc zero)))) = refl
ladder-rung (suc (suc (suc (suc (suc zero))))) = refl
ladder-rung (suc (suc (suc (suc (suc (suc zero)))))) = refl
ladder-rung (suc (suc (suc (suc (suc (suc (suc m))))))) = ground arith

pub ladder_bounds : (n : ℕ) → (60 ≤ lock_ladder_sec n) × (lock_ladder_sec n ≤ 7200)
ladder_bounds n = ground (arith, ladder-rung n)

-- A higher strike level never makes the lock of the ladder shorter.
pub ladder_mono : (m n : ℕ) → m ≤ n → lock_ladder_sec m ≤ lock_ladder_sec n
ladder_mono m n h = ground (arith, ladder-rung m, ladder-rung n)

-- Every lock lasts a second at least; and one whose duration is not configured lasts from one minute
-- to two hours.
pub choose-bounds :
    (stats : UserStats) (configured : ℤ)
    → let d = (choose_lock_duration stats configured).0 in
      (pos 1 ≤ℤ d) × (ltb_ℤ (pos 0) configured ≡ false → (pos 60 ≤ℤ d) × (d ≤ℤ pos 7200))
unfolding choose_lock_duration
choose-bounds stats configured =
    ground (arith, ladder_bounds (stats.strike_level), ladder_bounds (stats.strike_level + 1))

max_least : (a b : ℤ) → (a ≤ℤ max_ℤ a b) × (b ≤ℤ max_ℤ a b)
max_least a b = ground arith

-- What may happen to the lock and to the strike level between two states.
abbrev pub Grows : UserStats → UserStats → Type 0
Grows s t = (s.lock_until_ts ≤ℤ t.lock_until_ts) × (s.strike_level ≤ 1000 → t.strike_level ≤ 1000)

pub Grows-trans : (s t u : UserStats) → Grows s t → Grows t u → Grows s u
Grows-trans s t u g h = (omega (arith, g.0, h.0), λ l. h.1 (g.1 l))

choose-Grows : (s : UserStats) (configured : ℤ) → Grows s (choose_lock_duration s configured).1
unfolding choose_lock_duration
choose-Grows s configured = ground arith

pub raise-Grows :
    (user : Bytes) (alert : Alert) (configured now : ℤ) (s : UserStats) (entries : List Entry)
    → Grows s (raise user alert configured now s entries).0
unfolding raise
raise-Grows user alert configured now s entries =
    let (chosen, level) = choose-Grows s configured in
    let c = choose_lock_duration s configured in
    (omega (arith, chosen, (max_least c.1.lock_until_ts (now +ℤ c.0)).0), level)

-- After an alert the lock lasts for the chosen time at least.
pub raise-lock :
    (user : Bytes) (alert : Alert) (configured now : ℤ) (s : UserStats) (entries : List Entry)
    → now +ℤ (choose_lock_duration s configured).0
      ≤ℤ (raise user alert configured now s entries).0.lock_until_ts
unfolding raise
raise-lock user alert configured now s entries =
    let c = choose_lock_duration s configured in (max_least c.1.lock_until_ts (now +ℤ c.0)).1
