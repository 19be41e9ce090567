-- ===== src/Server/Audit/History.antt =====
-- Histories of the audit service of server/src/audit.cpp: what is logged, and restarts.
use encoder_next.Prelude.{
  ℕ, suc, ◌+◌, ◌%◌, ◌^◌, ◌<◌, ◌≤◌, ◌≡◌, refl, ap, ◌∙◌, inl, true, Option, some, List, [], ◌∷◌, ◌++◌,
  append-nil, append_assoc, Bytes, decimal, all, all-append, length, getlines, not_sep, ℤ, arith,
}
use encoder_next.Server.Context.{Written, is_whole, written, not_opened, cut_short, to_string}
use encoder_next.Server.Audit.{
  AlertRecord, AuditService, format_alert_line, parse_alert_line, last_id_loop, load_last_alert_id,
  start, contents, log_event, log_alert, next_alert,
}
use encoder_next.Server.Audit.Numbers.{IsTime}
use encoder_next.Server.Audit.Lines.{decimal_clean, to_string_clean, parse_alert_line_id}
use encoder_next.Server.Audit.Ascending.{
  text_of, AllLines, add_alert, alerts_in, ids, Within, getlines-text_of, text_of-append,
  AllLines-append, Within-grow, Within-snoc, last_id_loop-EndsAt, load_last_alert_id-last_id_loop,
}

-- What is logged, with the outcome of each write and the reading of the clock, or a restart over
-- the same files.
pub data Event : Type 0 where
  event : Written → ℤ → Bytes → Bytes → Bytes → Event
  alert : Written → Written → ℤ → Bytes → Bytes → Bytes → Event
  restart : Event

unfoldable pub serve : Event → AuditService → AuditService
serve (event w now kind username detail) s = log_event w now kind username detail s
serve (alert w v now kind username detail) s = (log_alert w v now kind username detail s).1
serve restart s = start s.log_file s.alert_file

unfoldable pub serve_all : List Event → AuditService → AuditService
serve_all [] s = s
serve_all (e ∷ es) s = serve_all es (serve e s)

-- The identifiers of the alerts that reach the file, in the order in which they are logged.
abbrev issued_by : Event → AuditService → List ℕ → List ℕ
issued_by (event w now kind username detail) s rest = rest
issued_by (alert written v now kind username detail) s rest = s.next_alert_id ∷ rest
issued_by (alert not_opened v now kind username detail) s rest = rest
issued_by (alert (cut_short part) v now kind username detail) s rest = rest
issued_by restart s rest = rest

unfoldable pub issued : List Event → AuditService → List ℕ
issued [] s = []
issued (e ∷ es) s = issued_by e s (issued es (serve e s))

-- Alerts without a line end in a field, at a time of 64 bits, that are not written in part.
abbrev pub IsPlain : Event → Type 0
IsPlain (event w now kind username detail) = Unit {0}
IsPlain (alert w v now kind username detail) =
    (is_whole w ≡ true)
    × IsTime now
    × (all (not_sep 10) kind ≡ true)
    × (all (not_sep 10) username ≡ true)
    × (all (not_sep 10) detail ≡ true)
IsPlain restart = Unit {0}

abbrev pub AllPlain : List Event → Type 0
AllPlain [] = Unit {0}
AllPlain (e ∷ es) = IsPlain e × AllPlain es

-- The alert file has these lines, numbered in ascending order below the next identifier.
abbrev pub Holds : List Bytes → AuditService → Type 0
Holds lines s =
    (contents s.alert_file ≡ text_of lines) × AllLines lines × Within s.next_alert_id lines 0

abbrev pub IsNumbered : AuditService → Type 0
IsNumbered s = (lines : List Bytes) × Holds lines s

-- The lines grow at their end by these identifiers, and the next one by one at most.
abbrev Grows : List Bytes → (List ℕ → List ℕ) → AuditService → AuditService → Type 0
Grows lines new s s' =
    (more : List Bytes) × Holds (lines ++ more) s'
    × (s'.next_alert_id ≤ suc s.next_alert_id)
    × ((later : List Bytes) → ids (alerts_in (more ++ later)) ≡ new (ids (alerts_in later)))

Grows-same :
    (lines : List Bytes) (s s' : AuditService)
    → Holds lines s'
    → s'.next_alert_id ≤ suc s.next_alert_id
    → Grows lines (λ later. later) s s'
Grows-same lines s s' h n = ([], rw (append-nil lines) h, n, λ later. refl)

ids-add_alert :
    (o : Option AlertRecord) (a : AlertRecord) (n : ℕ) (rest : List AlertRecord)
    → o ≡ some a
    → a.id ≡ n
    → ids (add_alert o rest) ≡ n ∷ ids rest
ids-add_alert o a n rest e same = rw (e, same) refl

format_alert_line_clean :
    (a : AlertRecord)
    → all (not_sep 10) a.kind ≡ true
    → all (not_sep 10) a.username ≡ true
    → all (not_sep 10) a.detail ≡ true
    → all (not_sep 10) (format_alert_line a) ≡ true
unfolding format_alert_line
format_alert_line_clean a k u d =
    all-append (not_sep 10) (decimal a.id) _ (decimal_clean 10 a.id (inl (omega arith))) (
      all-append (not_sep 10) (to_string a.ts) _ (to_string_clean 10 a.ts (inl (omega arith))) (
        all-append (not_sep 10) a.kind _ k
          (all-append (not_sep 10) a.username (b'|' ∷ a.detail) u d)))

log_alert-Grows :
    (w v : Written) (now : ℤ) (kind username detail : Bytes) (lines : List Bytes) (s : AuditService)
    → IsPlain (alert w v now kind username detail)
    → suc s.next_alert_id < 2 ^ 64
    → Holds lines s
    → Grows lines
        (issued_by (alert w v now kind username detail) s)
        s
        (log_alert w v now kind username detail s).1
unfolding log_alert
log_alert-Grows written v now kind username detail lines s p small (text, clean, within) =
    let a = next_alert now kind username detail s in
    let line = format_alert_line a in
    let (b, parsed, same) = parse_alert_line_id a (omega (arith, small)) p.1 in
    let next : (s.next_alert_id + 1) % 2 ^ 64 ≡ suc s.next_alert_id = omega (arith, small) in
    let file : contents s.alert_file ++ (line ++ (10 ∷ [])) ≡ text_of (lines ++ (line ∷ [])) =
      rw (text_of-append lines (line ∷ []), text) refl in
    let cleaned =
      AllLines-append lines (line ∷ []) clean (format_alert_line_clean a p.2 p.3 p.4, tt) in
    (
      line ∷ [],
      rw next (file, cleaned, Within-snoc s.next_alert_id lines line b 0 parsed same within),
      omega (arith, next),
      λ later.
          ids-add_alert (parse_alert_line line) b s.next_alert_id (alerts_in later) parsed same,
    )
log_alert-Grows not_opened v now kind username detail lines s p small (text, clean, within) =
    let next : (s.next_alert_id + 1) % 2 ^ 64 ≡ suc s.next_alert_id = omega (arith, small) in
    Grows-same lines s (log_alert not_opened v now kind username detail s).1
      (rw next (
        text,
        clean,
        Within-grow s.next_alert_id (suc s.next_alert_id) lines 0 (omega arith) within,
      ))
      (omega (arith, next))
log_alert-Grows (cut_short part) v now kind username detail lines s p small h = absurd (cc p.0)

serve-Grows :
    (e : Event) (lines : List Bytes) (s : AuditService)
    → IsPlain e
    → suc s.next_alert_id < 2 ^ 64
    → Holds lines s
    → Grows lines (issued_by e s) s (serve e s)
unfolding serve log_event start
serve-Grows (event w now kind username detail) lines s p small h =
    Grows-same lines s (log_event w now kind username detail s) h (omega arith)
serve-Grows (alert w v now kind username detail) lines s p small h =
    log_alert-Grows w v now kind username detail lines s p small h
serve-Grows restart lines s p small (text, clean, within) =
    let last : load_last_alert_id s.alert_file ≡ last_id_loop lines 0 =
      load_last_alert_id-last_id_loop s.alert_file
      ∙ ap (λ t. last_id_loop t 0) (ap (getlines 10) text ∙ getlines-text_of lines clean) in
    let (inside, least, below) = last_id_loop-EndsAt s.next_alert_id lines 0 within in
    let next : (load_last_alert_id s.alert_file + 1) % 2 ^ 64 ≡ suc (last_id_loop lines 0) =
      rw last (omega (arith, small, below)) in
    Grows-same lines s (start s.log_file s.alert_file) (rw next (text, clean, inside))
      (omega (arith, next, below))

pub serve_all-Grows :
    (es : List Event) (lines : List Bytes) (s : AuditService)
    → AllPlain es
    → s.next_alert_id + length es < 2 ^ 64
    → Holds lines s
    → (more : List Bytes) × Holds (lines ++ more) (serve_all es s)
      × (ids (alerts_in more) ≡ issued es s)
unfolding serve_all issued
serve_all-Grows [] lines s p small h = ([], rw (append-nil lines) h, refl)
serve_all-Grows (e ∷ es) lines s p small h =
    let (first, held, n, new) = serve-Grows e lines s p.0 (omega (arith, small)) h in
    let (more, rest, given) =
      serve_all-Grows es (lines ++ first) (serve e s) p.1 (omega (arith, n, small)) held in
    (first ++ more, rw (← append_assoc lines first more) rest, new more ∙ ap (issued_by e s) given)
