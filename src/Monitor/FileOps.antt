-- ===== src/Monitor/FileOps.antt =====
-- `record_file_op` of server/src/monitor.cpp on the statistics of its user, one alert at a time.
use encoder_next.Prelude.{
  ℕ, ◌+◌, ◌*◌, ◌%◌, ◌^◌, ◌&&◌, ◌||◌, [], ◌∷◌, ◌++◌, Bytes, codes, bytes_eq, ltb, leb, ◌==◌,
  if◌then◌else◌, length, replicate, ℤ, max,
}
use encoder_next.Monitor.{
  MonitorConfig, UserStats, bulk_files, decrypt_burst, decrypt_volume, behavior_deviation, Noted,
  drop_old, raise, is_cool, itself, sum,
}

abbrev pub time_of : ℤ × ℕ → ℤ
time_of x = x.0

module _ (cfg : MonitorConfig) (user : Bytes) (now : ℤ) where
  unfoldable pub note_bulk : Bytes → ℕ → UserStats → Noted
  note_bulk op repeats stats =
      let times =
        drop_old itself now cfg.bulk_files_window_sec
          (stats.file_op_times ++ replicate repeats now) in
      let counted = record stats { file_op_times = times } in
      if leb cfg.bulk_files_threshold (length times) && is_cool cfg now stats.last_bulk_alert_ts
      then raise user (bulk_files op (length times) cfg.bulk_files_window_sec)
          cfg.lock_bulk_files_sec now (record counted { last_bulk_alert_ts = now }) []
      else (counted, [])

  -- The counters and windows of a decryption.
  unfoldable pub count_decrypt : ℕ → ℕ → UserStats → UserStats
  count_decrypt repeats bytes stats = record stats {
    total_decrypt_ops = (stats.total_decrypt_ops + repeats) % 2 ^ 64;
    total_decrypt_bytes = (stats.total_decrypt_bytes + bytes) % 2 ^ 64;
    decrypt_times =
        drop_old itself now cfg.decrypt_burst_window_sec
          (stats.decrypt_times ++ replicate repeats now);
    decrypt_size_times =
        drop_old time_of now cfg.decrypt_volume_window_sec
          (stats.decrypt_size_times ++ ((now, bytes) ∷ []));
  }

  unfoldable pub note_burst : Noted → Noted
  note_burst (stats, entries) =
      let n = length stats.decrypt_times in
      if leb cfg.decrypt_burst_threshold n && is_cool cfg now stats.last_decrypt_rate_alert_ts
      then raise user (decrypt_burst n cfg.decrypt_burst_window_sec) cfg.lock_bulk_files_sec now
          (record stats { last_decrypt_rate_alert_ts = now }) entries
      else (stats, entries)

  unfoldable pub note_volume : Noted → Noted
  note_volume (stats, entries) =
      let window_bytes = sum stats.decrypt_size_times % 2 ^ 64 in
      let threshold_bytes = cfg.decrypt_volume_threshold_mb * 1048576 % 2 ^ 64 in
      if ltb 0 threshold_bytes
        && leb threshold_bytes window_bytes
        && is_cool cfg now stats.last_decrypt_volume_alert_ts
      then raise user (decrypt_volume window_bytes cfg.decrypt_volume_window_sec)
          cfg.lock_bulk_files_sec now (record stats { last_decrypt_volume_alert_ts = now }) entries
      else (stats, entries)

  unfoldable pub note_deviation : ℕ → Noted → Noted
  note_deviation bytes (stats, entries) =
      let n = length stats.decrypt_times in
      let rate = cfg.rate_exceeds n stats.total_decrypt_ops (max 1 stats.total_logins) in
      let size = cfg.bytes_exceed bytes stats.total_decrypt_bytes (max 1 stats.total_decrypt_ops) in
      if leb cfg.profile_min_decrypt_samples stats.total_decrypt_ops
        && (rate || size)
        && is_cool cfg now stats.last_decrypt_rate_alert_ts
      then raise user (behavior_deviation rate size n bytes) cfg.lock_suspicious_time_sec now
          (record stats { last_decrypt_rate_alert_ts = now }) entries
      else (stats, entries)

  unfoldable pub note_decrypt : ℕ → ℕ → Noted → Noted
  note_decrypt repeats bytes (stats, entries) =
      note_deviation bytes (note_volume (note_burst (count_decrypt repeats bytes stats, entries)))

  unfoldable pub note_file_op : Bytes → ℕ → ℕ → UserStats → Noted
  note_file_op op count bytes stats =
      let repeats = if count == 0 then 1 else count in
      let bulk = note_bulk op repeats stats in
      if bytes_eq op (codes "decrypt") then note_decrypt repeats bytes bulk else bulk
