-- ===== src/Monitor.antt =====
-- server/src/monitor.cpp: what a user does, and when that locks the account.
-- The mutex makes each method one step. Times and durations are signed seconds, taken as unbounded;
-- counters of 32 and 64 bits wrap. The three comparisons of floating-point numbers are fields of the
-- configuration. The entries handed to the audit service are returned, newest last; the averages in
-- the text of a `behavior_deviation` are left out. Writing and reading the statistics file is not
-- modelled.
pub mod FileOps
pub mod Store
pub mod Ladder
pub mod Locks
pub mod Alerts
pub mod Windows
mod Tests
use encoder_next.Prelude.{
  ℕ, zero, suc, ◌+◌, ◌*◌, ◌-◌, ◌%◌, ◌^◌, ◌<◌, Bool, true, false, not, ◌&&◌, ◌||◌, Option, none,
  some, List, [], ◌∷◌, ◌++◌, Bytes, codes, bytes_eq, ltb, leb, ◌==◌, if◌then◌else◌, length,
  replicate, get_or, ℤ, pos, ◌+ℤ◌, ◌-ℤ◌, ltb_ℤ,
}

-- `hour_below count total`: the count is below the fraction `time_hour_fraction` of the total.
-- `rate_exceeds current ops logins` and `bytes_exceed bytes total ops`: the deviation factors.
pub record MonitorConfig : Type 0 where
  pub failed_login_threshold : ℕ
  pub failed_login_window_sec : ℤ
  pub bulk_files_threshold : ℕ
  pub bulk_files_window_sec : ℤ
  pub time_min_samples : ℕ
  pub hour_below : ℕ → ℕ → Bool
  pub alert_cooldown_sec : ℤ
  pub work_hours_start : ℤ
  pub work_hours_end : ℤ
  pub lock_failed_login_sec : ℤ
  pub lock_bulk_files_sec : ℤ
  pub lock_suspicious_time_sec : ℤ
  pub decrypt_burst_threshold : ℕ
  pub decrypt_burst_window_sec : ℤ
  pub decrypt_volume_threshold_mb : ℕ
  pub decrypt_volume_window_sec : ℤ
  pub profile_min_decrypt_samples : ℕ
  pub rate_exceeds : ℕ → ℕ → ℕ → Bool
  pub bytes_exceed : ℕ → ℕ → ℕ → Bool

pub record UserStats : Type 0 where
  pub hour_counts : List ℕ
  pub total_logins : ℕ
  pub failed_login_times : List ℤ
  pub file_op_times : List ℤ
  pub decrypt_times : List ℤ
  pub decrypt_size_times : List (ℤ × ℕ)
  pub total_decrypt_ops : ℕ
  pub total_decrypt_bytes : ℕ
  pub last_failed_alert_ts : ℤ
  pub last_bulk_alert_ts : ℤ
  pub last_time_alert_ts : ℤ
  pub last_decrypt_rate_alert_ts : ℤ
  pub last_decrypt_volume_alert_ts : ℤ
  pub strike_level : ℕ
  pub lock_until_ts : ℤ

abbrev pub no_stats : UserStats
no_stats = record {
  hour_counts = replicate 24 0;
  total_logins = 0;
  failed_login_times = [];
  file_op_times = [];
  decrypt_times = [];
  decrypt_size_times = [];
  total_decrypt_ops = 0;
  total_decrypt_bytes = 0;
  last_failed_alert_ts = pos 0;
  last_bulk_alert_ts = pos 0;
  last_time_alert_ts = pos 0;
  last_decrypt_rate_alert_ts = pos 0;
  last_decrypt_volume_alert_ts = pos 0;
  strike_level = 0;
  lock_until_ts = pos 0;
}

-- The reason of an alert, with what its detail shows.
pub data Alert : Type 0 where
  suspicious_time : ℕ → ℕ → Alert
  failed_logins : ℕ → ℤ → Alert
  bulk_files : Bytes → ℕ → ℤ → Alert
  decrypt_burst : ℕ → ℤ → Alert
  decrypt_volume : ℕ → ℤ → Alert
  behavior_deviation : Bool → Bool → ℕ → ℕ → Alert

-- `user_locked` holds `locked_until`, the alert that is its reason, and `lock_sec`.
pub data Entry : Type 0 where
  log_alert : Bytes → Alert → Entry
  user_locked : Bytes → ℤ → Alert → ℤ → Entry
  user_unlocked : Bytes → Entry

unfoldable pub lock_ladder_sec : ℕ → ℕ
lock_ladder_sec strike_level =
    let idx = if strike_level == 0 then 0 else strike_level - 1 in
    get_or (60 ∷ 300 ∷ 600 ∷ 1800 ∷ 3600 ∷ 7200 ∷ []) (if leb 6 idx then 5 else idx) 0

unfoldable pub choose_lock_duration : UserStats → ℤ → ℤ × UserStats
choose_lock_duration stats configured_sec =
    let level =
      if ltb stats.strike_level 1000 then stats.strike_level + 1 else stats.strike_level in
    if ltb_ℤ (pos 0) configured_sec
    then (configured_sec, stats)
    else (pos (lock_ladder_sec level), record stats { strike_level = level })

-- The loop that drops times older than the window from the front.
unfoldable pub drop_old {ℓ} : {A : Type ℓ} → (A → ℤ) → ℤ → ℤ → List A → List A
drop_old time now window [] = []
drop_old time now window (x ∷ xs) =
    let rest = drop_old time now window xs in if ltb_ℤ window (now -ℤ time x) then rest else x ∷ xs

abbrev pub max_ℤ : ℤ → ℤ → ℤ
max_ℤ a b = if ltb_ℤ a b then b else a

-- A user's statistics and the entries handed to the audit service so far.
abbrev pub Noted : Type 0
Noted = UserStats × List Entry

-- The block that each alert runs, behind its own time of last alert.
unfoldable pub raise : Bytes → Alert → ℤ → ℤ → UserStats → List Entry → Noted
raise user alert configured_sec now stats entries =
    let (lock_sec, chosen) = choose_lock_duration stats configured_sec in
    let until = max_ℤ chosen.lock_until_ts (now +ℤ lock_sec) in
    (
      record chosen { lock_until_ts = until },
      entries ++ (log_alert user alert ∷ user_locked user until alert lock_sec ∷ []),
    )

-- The alert cooldown is over.
abbrev pub is_cool : MonitorConfig → ℤ → ℤ → Bool
is_cool cfg now last = ltb_ℤ cfg.alert_cooldown_sec (now -ℤ last)

abbrev pub itself : ℤ → ℤ
itself t = t

-- Adds one to the count at a place, on uint32_t.
abbrev pub count_at : ℕ → List ℕ → List ℕ
count_at i [] = []
count_at zero (n ∷ ns) = ((n + 1) % 2 ^ 32) ∷ ns
count_at (suc i) (n ∷ ns) = n ∷ count_at i ns

abbrev pub sum : List (ℤ × ℕ) → ℕ
sum [] = 0
sum (x ∷ xs) = x.1 + sum xs

module _ (cfg : MonitorConfig) where
  -- The hour is never negative.
  unfoldable pub is_outside_work_hours : ℕ → Bool
  is_outside_work_hours hour =
      let h = pos hour in
      if ltb_ℤ cfg.work_hours_start (pos 0) || ltb_ℤ cfg.work_hours_end (pos 0)
      then false
      else if ltb 23 hour
      then false
      else if not (ltb_ℤ cfg.work_hours_end cfg.work_hours_start)
      then ltb_ℤ h cfg.work_hours_start || ltb_ℤ cfg.work_hours_end h
      else ltb_ℤ cfg.work_hours_end h && ltb_ℤ h cfg.work_hours_start

  unfoldable pub is_suspicious_hour : UserStats → ℕ → Bool
  is_suspicious_hour stats hour =
      if is_outside_work_hours hour
      then true
      else if ltb stats.total_logins cfg.time_min_samples
      then false
      else if ltb 23 hour
      then false
      else cfg.hour_below (get_or stats.hour_counts hour 0) stats.total_logins

  -- What a login changes in any case.
  unfoldable pub count_login : ℕ → UserStats → UserStats
  count_login hour stats = record stats {
    total_logins = (stats.total_logins + 1) % 2 ^ 32;
    hour_counts = if ltb hour 24 then count_at hour stats.hour_counts else stats.hour_counts;
    failed_login_times = [];
    strike_level = if ltb 0 stats.strike_level then stats.strike_level - 1 else stats.strike_level;
  }

  -- `record_login_success` on the statistics of its user, with the local hour of `now`.
  unfoldable pub note_login_success : Bytes → ℤ → ℕ → UserStats → Noted
  note_login_success user now hour stats =
      let counted = count_login hour stats in
      if is_suspicious_hour stats hour && is_cool cfg now counted.last_time_alert_ts
      then raise user (suspicious_time hour counted.total_logins) cfg.lock_suspicious_time_sec now
          (record counted { last_time_alert_ts = now }) []
      else (counted, [])

  -- The failures in the window, with a new one.
  unfoldable pub failures : ℤ → UserStats → List ℤ
  failures now stats =
      drop_old itself now cfg.failed_login_window_sec (stats.failed_login_times ++ (now ∷ []))

  unfoldable pub note_login_failure : Bytes → ℤ → UserStats → Noted
  note_login_failure user now stats =
      let times = failures now stats in
      let failed = record stats { failed_login_times = times } in
      if leb cfg.failed_login_threshold (length times) && is_cool cfg now stats.last_failed_alert_ts
      then raise user (failed_logins (length times) cfg.failed_login_window_sec)
          cfg.lock_failed_login_sec now (record failed { last_failed_alert_ts = now }) []
      else (failed, [])
