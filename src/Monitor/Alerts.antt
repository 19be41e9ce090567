-- ===== src/Monitor/Alerts.antt =====
-- What `record_login_failure`, `is_locked` and `unlock_user` of server/src/monitor.cpp promise each
-- other. A configured lock of 0 seconds, which config/server.conf describes as none, takes its time
-- from the ladder in `choose_lock_duration`.
use encoder_next.Prelude.{
  find-put_same, find-put_other, find, put, ◌≤◌, ◌≡◌, ◌≢◌, ◌↔◌, refl, ap, ◌∙◌, true, false, Option,
  none, some, List, [], Bytes, leb, length, ℤ, pos, ◌+ℤ◌, ◌-ℤ◌, ◌≤ℤ◌, ltb_ℤ, +ℤ_parts, -ℤ_parts,
  arith,
}
use encoder_next.Monitor.{
  MonitorConfig, UserStats, is_cool, failures, choose_lock_duration, note_login_failure,
}
use encoder_next.Monitor.Store.{
  Users, stats_of, record_login_failure, is_locked, left_of, unlock_found, unlock_user,
}
use encoder_next.Monitor.Ladder.{raise-lock, choose-bounds}

locked_by :
    (u : Bytes) (now d : ℤ) (s : UserStats) (users : Users)
    → pos 1 ≤ℤ d
    → now +ℤ d ≤ℤ s.lock_until_ts
    → (left : ℤ) × (is_locked u now (put u s users) ≡ some left) × (d ≤ℤ left)
unfolding is_locked
locked_by u now d s users h k =
    let later : ltb_ℤ now s.lock_until_ts ≡ true = ground (arith, +ℤ_parts now d) in
    (
      s.lock_until_ts -ℤ now,
      ap (left_of now) (find-put_same u s users) ∙ rw later refl,
      omega (arith, +ℤ_parts now d, -ℤ_parts s.lock_until_ts now),
    )

lasts_configured :
    (s : UserStats) (configured left : ℤ)
    → pos 1 ≤ℤ configured
    → (choose_lock_duration s configured).0 ≤ℤ left
    → configured ≤ℤ left
unfolding choose_lock_duration
lasts_configured s configured left above h =
    let more : ltb_ℤ (pos 0) configured ≡ true = ground arith in rw more at h

lasts_a_minute :
    (s : UserStats) (configured left : ℤ)
    → configured ≤ℤ pos 0
    → (choose_lock_duration s configured).0 ≤ℤ left
    → pos 60 ≤ℤ left
lasts_a_minute s configured left below h =
    let none' : ltb_ℤ (pos 0) configured ≡ false = ground arith in
    let minute = ((choose-bounds s configured).1 none').0 in omega (arith, minute, h)

module _ (cfg : MonitorConfig) where
  alerted_choice :
      (s : UserStats) (times : List ℤ) (now configured : ℤ)
      → (choose_lock_duration
          (record s { failed_login_times = times; last_failed_alert_ts = now })
          configured).0
        ≡ (choose_lock_duration s configured).0
  unfolding choose_lock_duration
  alerted_choice s times now configured = ground arith

  note_login_failure-lock :
      (user : Bytes) (now : ℤ) (s : UserStats)
      → cfg.failed_login_threshold ≤ length (failures cfg now s)
      → is_cool cfg now s.last_failed_alert_ts ≡ true
      → now +ℤ (choose_lock_duration s cfg.lock_failed_login_sec).0
        ≤ℤ (note_login_failure cfg user now s).0.lock_until_ts
  unfolding note_login_failure
  note_login_failure-lock user now s h cool =
      let times = failures cfg now s in
      let many : leb cfg.failed_login_threshold (length times) ≡ true = ground arith in
      let alerted : UserStats = record s {
        failed_login_times = times;
        last_failed_alert_ts = now;
      } in
      rw (many, cool, ← alerted_choice s times now cfg.lock_failed_login_sec)
        (raise-lock user _ cfg.lock_failed_login_sec now alerted [])

  -- A failed login that brings the failures in the window up to the threshold locks the user at
  -- once, if the alert cooldown is over, whatever lock is configured: at that very instant a lock runs
  -- still for the configured time at least, if that is above 0, and otherwise for the minute at least
  -- that the ladder of escalating locks begins with.
  pub record_login_failure-is_locked :
      (user : Bytes) (now : ℤ) (users : Users)
      → cfg.failed_login_threshold ≤ length (failures cfg now (stats_of user users))
      → is_cool cfg now (stats_of user users).last_failed_alert_ts ≡ true
      → (left : ℤ) × (is_locked user now (record_login_failure cfg user now users).0 ≡ some left)
        × (pos 1 ≤ℤ cfg.lock_failed_login_sec → cfg.lock_failed_login_sec ≤ℤ left)
        × (cfg.lock_failed_login_sec ≤ℤ pos 0 → pos 60 ≤ℤ left)
  unfolding record_login_failure
  record_login_failure-is_locked user now users h cool =
      let s = stats_of user users in
      let n = (note_login_failure cfg user now s).0 in
      let bounds = choose-bounds s cfg.lock_failed_login_sec in
      let (some', long, left) =
        locked_by user now (choose_lock_duration s cfg.lock_failed_login_sec).0 n users bounds.0
          (note_login_failure-lock user now s h cool) in
      (
        some',
        long,
        λ above. lasts_configured s cfg.lock_failed_login_sec some' above left,
        λ below. lasts_a_minute s cfg.lock_failed_login_sec some' below left,
      )

unlock_known :
    (user other : Bytes) (now : ℤ) (users : Users) (o : Option UserStats)
    → pos 0 ≤ℤ now
    → other ≢ user
    → find user users ≡ o
    → let (done, users', entries) = unlock_found user users o in
      (left_of now (find user users') ≡ none)
      × (find other users' ≡ find other users)
      × ((done ≡ false) ↔ (find user users ≡ none))
unlock_known user other now users none h k e = (ap (left_of now) e, refl, (λ d. e, λ d. refl))
unlock_known user other now users (some s) h k e =
    let free : UserStats = record s { lock_until_ts = pos 0; strike_level = 0 } in
    let over : left_of now (some free) ≡ none = ground arith in
    (
      ap (left_of now) (find-put_same user free users) ∙ over,
      find-put_other user other free users k,
      (λ d. cc, λ d. cc),
    )

-- Unlocking answers yes exactly for a user that the monitor knows. From then on no lock runs at any
-- time that is not negative, and the statistics of every other user are what they were.
pub unlock_user-is_locked :
    (user other : Bytes) (now : ℤ) (users : Users)
    → pos 0 ≤ℤ now
    → other ≢ user
    → let (done, users', entries) = unlock_user user users in
      (is_locked user now users' ≡ none)
      × (find other users' ≡ find other users)
      × ((done ≡ false) ↔ (find user users ≡ none))
unfolding unlock_user is_locked
unlock_user-is_locked user other now users h k =
    unlock_known user other now users (find user users) h k refl
