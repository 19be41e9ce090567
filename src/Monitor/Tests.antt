-- ===== src/Monitor/Tests.antt =====
-- One user of server/src/monitor.cpp.
use encoder_next.Prelude.{
  find, ◌+◌, ◌≤◌, ◌≡◌, refl, true, some, List, [], ◌∷◌, Bytes, codes, length, ℤ, ◌-ℤ◌, pos, ◌≤ℤ◌,
  arith, ltb,
}
use encoder_next.Monitor.{MonitorConfig, UserStats, no_stats, failures, drop_old, is_cool}
use encoder_next.Monitor.Store.{Users, stats_of, record_login_failure, is_locked}
use encoder_next.Monitor.Locks.{Event, succeeds, fails, acts, serve_all, serve_all-Grows}
use encoder_next.Monitor.Alerts.{record_login_failure-is_locked}
use encoder_next.Monitor.Windows.{within, latest, fail_all, fail_all-within}

-- The defaults of `MonitorConfig`, with a night shift.
abbrev cfg : MonitorConfig
cfg = record {
  failed_login_threshold = 3;
  failed_login_window_sec = pos 600;
  bulk_files_threshold = 20;
  bulk_files_window_sec = pos 300;
  time_min_samples = 5;
  hour_below = λ count total. ltb (count + count + count + count + count) total;
  alert_cooldown_sec = pos 600;
  work_hours_start = pos 22;
  work_hours_end = pos 6;
  lock_failed_login_sec = pos 0;
  lock_bulk_files_sec = pos 0;
  lock_suspicious_time_sec = pos 0;
  decrypt_burst_threshold = 20;
  decrypt_burst_window_sec = pos 60;
  decrypt_volume_threshold_mb = 256;
  decrypt_volume_window_sec = pos 300;
  profile_min_decrypt_samples = 20;
  rate_exceeds = λ current ops logins. ltb (ops + ops + ops) current;
  bytes_exceed = λ bytes total ops. ltb total bytes;
}

abbrev alice : Bytes
alice = codes "alice"

abbrev bob : Bytes
bob = codes "bob"

abbrev tried : UserStats
tried = record no_stats { failed_login_times = pos 1000 ∷ pos 1010 ∷ [] }

abbrev users : Users
users = (alice, tried) ∷ (bob, no_stats) ∷ []

many : 3 ≤ length (failures cfg (pos 1020) (stats_of alice users))
unfolding failures drop_old stats_of find ◌-ℤ◌
many = omega arith

cool : is_cool cfg (pos 1020) (stats_of alice users).last_failed_alert_ts ≡ true
unfolding stats_of find ◌-ℤ◌
cool = refl

record_login_failure-is_locked_example :
    (left : ℤ) × (is_locked alice (pos 1020) (record_login_failure cfg alice (pos 1020) users).0
      ≡ some left)
    × (pos 1 ≤ℤ pos 0 → pos 0 ≤ℤ left)
    × (pos 0 ≤ℤ pos 0 → pos 60 ≤ℤ left)
record_login_failure-is_locked_example =
    record_login_failure-is_locked cfg alice (pos 1020) users many cool

abbrev day : List Event
day =
    fails alice (pos 1020)
    ∷ succeeds bob (pos 1030) 4
    ∷ acts bob (pos 1040) (codes "decrypt") 0 9
    ∷ []

serve_all-Grows_example :
    ((stats_of bob users).lock_until_ts ≤ℤ (stats_of bob (serve_all cfg day users)).lock_until_ts)
    × ((stats_of bob users).strike_level ≤ 1000
        → (stats_of bob (serve_all cfg day users)).strike_level ≤ 1000)
serve_all-Grows_example = serve_all-Grows cfg day bob users

abbrev times : List ℤ
times = pos 100 ∷ pos 500 ∷ pos 900 ∷ []

fail_all-within_example :
    (fail_all cfg alice times no_stats).failed_login_times
    ≡ within (λ t. t) (latest (pos 0) times) (pos 600) times
fail_all-within_example = fail_all-within cfg alice (pos 0) times (omega arith)
