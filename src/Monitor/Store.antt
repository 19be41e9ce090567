-- ===== src/Monitor/Store.antt =====
-- The methods of `SecurityMonitor` in server/src/monitor.cpp on the statistics of all users.
use encoder_next.Prelude.{
  find, put, ℕ, suc, leb, Bool, true, false, not, Option, none, some, List, [], ◌∷◌, Bytes,
  if◌then◌else◌, ℤ, pos, ◌-ℤ◌, ltb_ℤ, ltb, ◌&&◌,
}
use encoder_next.Monitor.{
  MonitorConfig, UserStats, no_stats, Entry, user_unlocked, note_login_success, note_login_failure,
}
use encoder_next.Monitor.FileOps.{note_file_op}

-- `stats_`: each user once. The map's own order is open; this one is the order of arrival.
abbrev pub Users : Type 0
Users = List (Bytes × UserStats)

-- `stats_[username]` makes the statistics that are missing.
unfoldable pub stats_of : Bytes → Users → UserStats
stats_of user users = elim (find user users) [ none ↦ no_stats | some stats ↦ stats ]

module _ (cfg : MonitorConfig) where
  unfoldable pub record_login_success : Bytes → ℤ → ℕ → Users → Users × List Entry
  record_login_success user now hour users =
      let (stats, entries) = note_login_success cfg user now hour (stats_of user users) in
      (put user stats users, entries)

  unfoldable pub record_login_failure : Bytes → ℤ → Users → Users × List Entry
  record_login_failure user now users =
      let (stats, entries) = note_login_failure cfg user now (stats_of user users) in
      (put user stats users, entries)

  unfoldable pub record_file_op : Bytes → ℤ → Bytes → ℕ → ℕ → Users → Users × List Entry
  record_file_op user now op count bytes users =
      let (stats, entries) = note_file_op cfg user now op count bytes (stats_of user users) in
      (put user stats users, entries)

abbrev pub left_of : ℤ → Option UserStats → Option ℤ
left_of now none = none
left_of now (some stats) =
    if ltb_ℤ now stats.lock_until_ts then some (stats.lock_until_ts -ℤ now) else none

-- The seconds that a lock still runs; `none` is no lock.
unfoldable pub is_locked : Bytes → ℤ → Users → Option ℤ
is_locked user now users = left_of now (find user users)

abbrev pub unlock_found : Bytes → Users → Option UserStats → Bool × Users × List Entry
unlock_found user users none = (false, users, [])
unlock_found user users (some stats) = (
  true,
  put user (record stats { lock_until_ts = pos 0; strike_level = 0 }) users,
  user_unlocked user ∷ [],
)

unfoldable pub unlock_user : Bytes → Users → Bool × Users × List Entry
unlock_user user users = unlock_found user users (find user users)

-- `dump_locks`, with the fields of a line: the user, the end of the lock and the seconds left.
-- A limit of 0 is none; the loop stops as soon as the limit is reached.
unfoldable pub dump_from : ℕ → ℕ → ℤ → Users → List (Bytes × ℤ × ℤ)
dump_from limit written now [] = []
dump_from limit written now (x ∷ xs) =
    let until = x.1.lock_until_ts in
    let on = dump_from limit written now xs in
    let after = dump_from limit (suc written) now xs in
    if not (ltb_ℤ now until)
    then on
    else if ltb 0 limit && leb limit (suc written)
    then (x.0, until, until -ℤ now) ∷ []
    else (x.0, until, until -ℤ now) ∷ after

unfoldable pub dump_locks : ℕ → ℤ → Users → List (Bytes × ℤ × ℤ)
dump_locks limit now users = dump_from limit 0 now users
