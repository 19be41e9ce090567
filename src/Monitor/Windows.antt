-- ===== src/Monitor/Windows.antt =====
-- The sliding windows and the work hours of server/src/monitor.cpp.
use encoder_next.Prelude.{
  ℕ, ◌+◌, ◌-◌, ◌%◌, ◌≤◌, ◌<◌, ◌≡◌, ◌↔◌, refl, sym, ap, ◌∙◌, true, false, List, [], ◌∷◌, ◌++◌,
  if◌then◌else◌, if_both, ℤ, pos, ◌-ℤ◌, ◌≤ℤ◌, ltb_ℤ, -ℤ_parts, arith, Bool-cases, inl, inr,
  append-nil, append_assoc, Bytes,
}
use encoder_next.Monitor.{
  MonitorConfig, UserStats, no_stats, Noted, drop_old, itself, failures, is_outside_work_hours,
  note_login_failure, raise, choose_lock_duration,
}

-- Everything of a list that lies in the window.
abbrev pub within {ℓ} : {A : Type ℓ} → (A → ℤ) → ℤ → ℤ → List A → List A
within time now window [] = []
within time now window (x ∷ xs) =
    let rest = within time now window xs in if ltb_ℤ window (now -ℤ time x) then rest else x ∷ rest

-- Times that never go back, from a given one on.
abbrev pub Ascends : ℤ → List ℤ → Type 0
Ascends t [] = Unit {0}
Ascends t (x ∷ xs) = (t ≤ℤ x) × Ascends x xs

late :
    (now window t u : ℤ)
    → t ≤ℤ u
    → ltb_ℤ window (now -ℤ t) ≡ false
    → ltb_ℤ window (now -ℤ u) ≡ false
late now window t u h k = ground (arith, -ℤ_parts now t, -ℤ_parts now u)

within_all :
    (now window t : ℤ) (xs : List ℤ)
    → Ascends t xs
    → ltb_ℤ window (now -ℤ t) ≡ false
    → within itself now window xs ≡ xs
within_all now window t [] a h = refl
within_all now window t (x ∷ xs) a h =
    let fresh = late now window t x a.0 h in
    rw fresh (ap (◌∷◌ x) (within_all now window x xs a.1 fresh))

-- On times that never go back the loop keeps exactly what lies in the window.
drop_old-within :
    (now window t : ℤ) (xs : List ℤ)
    → Ascends t xs
    → drop_old itself now window xs ≡ within itself now window xs
unfolding drop_old
drop_old-within now window t [] a = refl
drop_old-within now window t (x ∷ xs) a = elim (Bool-cases (ltb_ℤ window (now -ℤ x))) [
  | inl e ↦ rw (e, drop_old) (drop_old-within now window x xs a.1)
  | inr e ↦ rw (e, drop_old) (ap (◌∷◌ x) (sym (within_all now window x xs a.1 e)))
]

stale :
    (now later window t : ℤ)
    → now ≤ℤ later
    → ltb_ℤ window (now -ℤ t) ≡ true
    → ltb_ℤ window (later -ℤ t) ≡ true
stale now later window t h k = ground (arith, -ℤ_parts now t, -ℤ_parts later t)

within_twice :
    (now later window : ℤ) (xs ys : List ℤ)
    → now ≤ℤ later
    → within itself later window (within itself now window xs ++ ys)
      ≡ within itself later window (xs ++ ys)
within_twice now later window [] ys h = refl
within_twice now later window (x ∷ xs) ys h =
    let again = within_twice now later window xs ys h in
    elim (Bool-cases (ltb_ℤ window (now -ℤ x))) [
      | inl e ↦ rw (e, stale now later window x h e) again
      | inr e ↦ rw e (ap (λ rest. if ltb_ℤ window (later -ℤ x) then rest else x ∷ rest) again)
    ]

Ascends-from : (t u : ℤ) (xs : List ℤ) → t ≤ℤ u → Ascends u xs → Ascends t xs
Ascends-from t u [] h a = tt
Ascends-from t u (x ∷ xs) h a = (omega (arith, h, a.0), a.1)

-- A filtered list still ascends.
within-Ascends :
    (now window t last : ℤ) (xs : List ℤ)
    → Ascends t (xs ++ (last ∷ []))
    → Ascends t (within itself now window xs ++ (last ∷ []))
within-Ascends now window t last [] a = a
within-Ascends now window t last (x ∷ xs) a = elim (Bool-cases (ltb_ℤ window (now -ℤ x))) [
  | inl e ↦ rw e (Ascends-from t x _ a.0 (within-Ascends now window x last xs a.1))
  | inr e ↦ rw e (a.0, within-Ascends now window x last xs a.1)
]

module _ (start stop hour : ℕ) where
  -- The hour lies on the clock between the two hours, going forward from the first.
  abbrev pub InShift : Type 0
  InShift = (hour + 24 - start) % 24 ≤ (stop + 24 - start) % 24

-- With work hours configured, an hour of the day is outside them exactly when it does not lie between
-- their first and their last hour on the clock, going forward; also when they run past midnight.
pub is_outside_work_hours_iff :
    (cfg : MonitorConfig) (start stop hour : ℕ)
    → cfg.work_hours_start ≡ pos start
    → cfg.work_hours_end ≡ pos stop
    → start < 24
    → stop < 24
    → hour < 24
    → (is_outside_work_hours cfg hour ≡ false) ↔ InShift start stop hour
unfolding is_outside_work_hours
is_outside_work_hours_iff cfg start stop hour a b s t h =
    rw (a, b, is_outside_work_hours) (λ k. ground arith, λ k. ground arith)

choose-times :
    (s : UserStats) (configured : ℤ)
    → (choose_lock_duration s configured).1.failed_login_times ≡ s.failed_login_times
unfolding choose_lock_duration
choose-times s configured = ground arith

Ascends-prefix :
    (t x : ℤ) (past ts : List ℤ) → Ascends t (past ++ (x ∷ ts)) → Ascends t (past ++ (x ∷ []))
Ascends-prefix t x [] ts a = (a.0, tt)
Ascends-prefix t x (p ∷ past) ts a = (a.0, Ascends-prefix p x past ts a.1)

-- The last of the times, or the one before them.
abbrev pub latest : ℤ → List ℤ → ℤ
latest t [] = t
latest t (x ∷ xs) = latest x xs

module _ (cfg : MonitorConfig) (user : Bytes) where
  -- Failed logins of one user at the given times.
  unfoldable pub fail_all : List ℤ → UserStats → UserStats
  fail_all [] s = s
  fail_all (now ∷ ts) s = fail_all ts (note_login_failure cfg user now s).0

  note_login_failure-times :
      (now : ℤ) (s : UserStats)
      → (note_login_failure cfg user now s).0.failed_login_times ≡ failures cfg now s
  unfolding note_login_failure raise
  note_login_failure-times now s =
      let alerted : UserStats = record s {
        failed_login_times = failures cfg now s;
        last_failed_alert_ts = now;
      } in
      if_both (λ (n : Noted). n.0.failed_login_times ≡ failures cfg now s) _ _ _
        (choose-times alerted cfg.lock_failed_login_sec) refl

  abbrev window : ℤ
  window = cfg.failed_login_window_sec

  failures-within :
      (last now t : ℤ) (past : List ℤ) (s : UserStats)
      → s.failed_login_times ≡ within itself last window past
      → last ≤ℤ now
      → Ascends t (past ++ (now ∷ []))
      → failures cfg now s ≡ within itself now window (past ++ (now ∷ []))
  unfolding failures
  failures-within last now t past s e h a = rw e (
      drop_old-within now window t _ (within-Ascends last window t now past a)
      ∙ within_twice last now window past (now ∷ []) h)

  fail_all-from :
      (last t : ℤ) (past ts : List ℤ) (s : UserStats)
      → s.failed_login_times ≡ within itself last window past
      → Ascends last ts
      → Ascends t (past ++ ts)
      → (fail_all ts s).failed_login_times ≡ within itself (latest last ts) window (past ++ ts)
  unfolding fail_all
  fail_all-from last t past [] s e b a = e ∙ ap (within itself last window) (sym (append-nil past))
  fail_all-from last t past (now ∷ ts) s e b a =
      let s' = (note_login_failure cfg user now s).0 in
      let kept : s'.failed_login_times ≡ within itself now window (past ++ (now ∷ [])) =
        note_login_failure-times now s
        ∙ failures-within last now t past s e b.0 (Ascends-prefix t now past ts a) in
      let joined : (past ++ (now ∷ [])) ++ ts ≡ past ++ (now ∷ ts) =
        append_assoc past (now ∷ []) ts in
      fail_all-from now t (past ++ (now ∷ [])) ts s' kept b.1 (rw joined a)
      ∙ ap (within itself (latest now ts) window) joined

  -- After any failed logins of a new user at times that never go back, the failures that count
  -- against the threshold are exactly those not older than the window at the last of them.
  pub fail_all-within :
      (t : ℤ) (ts : List ℤ)
      → Ascends t ts
      → (fail_all ts no_stats).failed_login_times
        ≡ within itself (latest t ts) cfg.failed_login_window_sec ts
  fail_all-within t ts a = fail_all-from t t [] ts no_stats refl a a
