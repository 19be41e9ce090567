-- ===== src/Monitor/Locks.antt =====
-- What any history of calls does to the locks of server/src/monitor.cpp.
use encoder_next.Prelude.{
  find, put, find-put, ℕ, ◌≤◌, ◌≡◌, refl, ap, ◌∙◌, inl, inr, Bool, true, false, Option, none, some,
  List, [], ◌∷◌, Bytes, codes, bytes_eq, bytes_eq_sound, ◌==◌, if◌then◌else◌, if_both, ℤ, ◌≤ℤ◌,
  arith, Bool-cases,
}
use encoder_next.Monitor.{
  MonitorConfig, UserStats, no_stats, Noted, raise, note_login_success, count_login,
  note_login_failure, suspicious_time,
}
use encoder_next.Monitor.FileOps.{
  note_bulk, count_decrypt, note_burst, note_volume, note_deviation, note_decrypt, note_file_op,
}
use encoder_next.Monitor.Store.{
  Users, stats_of, record_login_success, record_login_failure, record_file_op,
}
use encoder_next.Monitor.Ladder.{Grows, Grows-trans, raise-Grows}

module _ (cfg : MonitorConfig) (user : Bytes) (now : ℤ) where
  abbrev Raised : UserStats → Noted → Type 0
  Raised s n = Grows s n.0

  count_login-Grows :
      (hour : ℕ) (s : UserStats)
      → Grows s (count_login cfg hour s)
        × Grows s (record (count_login cfg hour s) { last_time_alert_ts = now })
  unfolding count_login
  count_login-Grows hour s = ((omega arith, λ l. ground arith), (omega arith, λ l. ground arith))

  note_login_success-Grows :
      (hour : ℕ) (s : UserStats) → Grows s (note_login_success cfg user now hour s).0
  unfolding note_login_success
  note_login_success-Grows hour s =
      let (counted, alerted) = count_login-Grows hour s in
      let n = (count_login cfg hour s).total_logins in
      let c : UserStats = record (count_login cfg hour s) { last_time_alert_ts = now } in
      let configured = cfg.lock_suspicious_time_sec in
      let raised = raise-Grows user (suspicious_time hour n) configured now c [] in
      let locked = raise user (suspicious_time hour n) configured now c [] in
      if_both (Raised s) _ locked _ (Grows-trans s c locked.0 alerted raised) counted

  note_login_failure-Grows : (s : UserStats) → Grows s (note_login_failure cfg user now s).0
  unfolding note_login_failure
  note_login_failure-Grows s =
      if_both (Raised s) _ _ _ (raise-Grows user _ _ now _ []) (omega arith, λ l. l)

  note_bulk-Grows :
      (op : Bytes) (repeats : ℕ) (s : UserStats) → Grows s (note_bulk cfg user now op repeats s).0
  unfolding note_bulk
  note_bulk-Grows op repeats s =
      if_both (Raised s) _ _ _ (raise-Grows user _ _ now _ []) (omega arith, λ l. l)

  note_burst-Grows : (n : Noted) → Grows n.0 (note_burst cfg user now n).0
  unfolding note_burst
  note_burst-Grows (s, entries) =
      if_both (Raised s) _ _ _ (raise-Grows user _ _ now _ entries) (omega arith, λ l. l)

  note_volume-Grows : (n : Noted) → Grows n.0 (note_volume cfg user now n).0
  unfolding note_volume
  note_volume-Grows (s, entries) =
      if_both (Raised s) _ _ _ (raise-Grows user _ _ now _ entries) (omega arith, λ l. l)

  note_deviation-Grows : (bytes : ℕ) (n : Noted) → Grows n.0 (note_deviation cfg user now bytes n).0
  unfolding note_deviation
  note_deviation-Grows bytes (s, entries) =
      if_both (Raised s) _ _ _ (raise-Grows user _ _ now _ entries) (omega arith, λ l. l)

  count_decrypt-Grows :
      (repeats bytes : ℕ) (s : UserStats) → Grows s (count_decrypt cfg user now repeats bytes s)
  unfolding count_decrypt
  count_decrypt-Grows repeats bytes s = (omega arith, λ l. l)

  note_decrypt-Grows :
      (repeats bytes : ℕ) (n : Noted) → Grows n.0 (note_decrypt cfg user now repeats bytes n).0
  unfolding note_decrypt
  note_decrypt-Grows repeats bytes (s, entries) =
      let n₀ : Noted = (count_decrypt cfg user now repeats bytes s, entries) in
      let n₁ = note_burst cfg user now n₀ in
      let n₂ = note_volume cfg user now n₁ in
      let n₃ = note_deviation cfg user now bytes n₂ in
      let g₁ =
        Grows-trans s n₀.0 n₁.0 (count_decrypt-Grows repeats bytes s) (note_burst-Grows n₀) in
      let g₂ = Grows-trans s n₁.0 n₂.0 g₁ (note_volume-Grows n₁) in
      Grows-trans s n₂.0 n₃.0 g₂ (note_deviation-Grows bytes n₂)

  note_file_op-Grows :
      (op : Bytes) (count bytes : ℕ) (s : UserStats)
      → Grows s (note_file_op cfg user now op count bytes s).0
  unfolding note_file_op
  note_file_op-Grows op count bytes s =
      let repeats = if count == 0 then 1 else count in
      let bulk = note_bulk cfg user now op repeats s in
      let first = note_bulk-Grows op repeats s in
      if_both (Raised s) (bytes_eq op (codes "decrypt")) _ _
        (Grows-trans s bulk.0 (note_decrypt cfg user now repeats bytes bulk).0 first
          (note_decrypt-Grows repeats bytes bulk))
        first

abbrev or_new : Option UserStats → UserStats
or_new o = elim o [ none ↦ no_stats | some stats ↦ stats ]

or_new_if :
    (b : Bool) (s : UserStats) (o : Option UserStats)
    → or_new (if b then some s else o) ≡ (if b then s else or_new o)
or_new_if true s o = refl
or_new_if false s o = refl

pub stats_of-put :
    (u v : Bytes) (s : UserStats) (users : Users)
    → stats_of v (put u s users) ≡ (if bytes_eq u v then s else stats_of v users)
unfolding stats_of
stats_of-put u v s users =
    ap or_new (find-put u v s users) ∙ or_new_if (bytes_eq u v) s (find v users)

put-Grows :
    (u v : Bytes) (s : UserStats) (users : Users)
    → Grows (stats_of u users) s
    → Grows (stats_of v users) (stats_of v (put u s users))
put-Grows u v s users g = elim (Bool-cases (bytes_eq u v)) [
  | inl e ↦ rw (stats_of-put u v s users, e, ← bytes_eq_sound u v e) g
  | inr e ↦ rw (stats_of-put u v s users, e) (omega arith, λ l. l)
]

-- A call that records what a user did.
pub data Event : Type 0 where
  succeeds : Bytes → ℤ → ℕ → Event
  fails : Bytes → ℤ → Event
  acts : Bytes → ℤ → Bytes → ℕ → ℕ → Event

unfoldable pub serve : MonitorConfig → Event → Users → Users
serve cfg (succeeds user now hour) users = (record_login_success cfg user now hour users).0
serve cfg (fails user now) users = (record_login_failure cfg user now users).0
serve cfg (acts user now op count bytes) users =
    (record_file_op cfg user now op count bytes users).0

unfoldable pub serve_all : MonitorConfig → List Event → Users → Users
serve_all cfg [] users = users
serve_all cfg (e ∷ es) users = serve_all cfg es (serve cfg e users)

serve-Grows :
    (cfg : MonitorConfig) (e : Event) (v : Bytes) (users : Users)
    → Grows (stats_of v users) (stats_of v (serve cfg e users))
unfolding serve record_login_success record_login_failure record_file_op
serve-Grows cfg (succeeds u now hour) v users =
    put-Grows u v _ users (note_login_success-Grows cfg u now hour (stats_of u users))
serve-Grows cfg (fails u now) v users =
    put-Grows u v _ users (note_login_failure-Grows cfg u now (stats_of u users))
serve-Grows cfg (acts u now op count bytes) v users =
    put-Grows u v _ users (note_file_op-Grows cfg u now op count bytes (stats_of u users))

-- Whatever users do, in any order and at any times, no lock is ever shortened, of the acting user or
-- of another; and a strike level that is at most 1000 stays so.
pub serve_all-Grows :
    (cfg : MonitorConfig) (es : List Event) (v : Bytes) (users : Users)
    → ((stats_of v users).lock_until_ts ≤ℤ (stats_of v (serve_all cfg es users)).lock_until_ts)
      × ((stats_of v users).strike_level ≤ 1000
          → (stats_of v (serve_all cfg es users)).strike_level ≤ 1000)
unfolding serve_all
serve_all-Grows cfg [] v users = (omega arith, λ l. l)
serve_all-Grows cfg (e ∷ es) v users =
    let next = serve cfg e users in
    Grows-trans (stats_of v users) (stats_of v next) (stats_of v (serve_all cfg es next))
      (serve-Grows cfg e v users) (serve_all-Grows cfg es v next)
