-- ===== src/Server/Audit/Polling.antt =====
-- Readers of server/src/audit.cpp: polling for alerts, and the end of the log.
use encoder_next.Prelude.{
  ℕ, zero, suc, ◌+◌, ◌-◌, ◌⊎◌, inl, inr, drop, length-drop, Bool-cases, ◌^◌, ◌<◌, ◌≤◌, ◌≡◌, refl,
  ap, ◌∙◌, true, false, Option, none, some, List, [], ◌∷◌, ◌++◌, Bytes, length, ltb, lt→ltb, leb,
  getlines, arith,
}
use encoder_next.Server.Audit.{
  AlertRecord, AuditService, parse_alert_line, newest, push_newer, newer_alerts, get_alerts_since,
  load_last_alert_id, last_id_loop, larger_id, contents,
}
use encoder_next.Server.Audit.History.{
  Event, issued, serve_all, AllPlain, IsNumbered, serve_all-Grows,
}
use encoder_next.Server.Audit.Ascending.{
  ids, alerts_in, add_alert, Within, NextWithin, getlines-text_of, load_last_alert_id-last_id_loop,
}

-- An alert file of whole lines whose identifiers ascend and stay below the next one stays so, and the
-- next identifier with it, through every history of plain events, restarts included, that does not use
-- up the identifiers of 64 bits.
pub serve_all-IsNumbered :
    (es : List Event) (s : AuditService)
    → AllPlain es
    → s.next_alert_id + length es < 2 ^ 64
    → IsNumbered s
    → IsNumbered (serve_all es s)
serve_all-IsNumbered es s p small (lines, h) =
    let (more, rest, given) = serve_all-Grows es lines s p small h in (lines ++ more, rest)

-- Above the identifier that is asked for, every alert of the lines is taken.
push_newer_all :
    (o : Option AlertRecord) (hi low lo : ℕ) (lines : List Bytes)
    → low ≤ lo
    → ((x : ℕ) → low ≤ x → Within hi lines x → newer_alerts low lines ≡ alerts_in lines)
    → NextWithin o (Within hi lines) lo
    → push_newer low o (newer_alerts low lines) ≡ add_alert o (alerts_in lines)
push_newer_all none hi low lo lines l again w = again lo l w
push_newer_all (some a) hi low lo lines l again (above, w) =
    let newer : leb a.id low ≡ false = ground arith in
    rw newer (ap (◌∷◌ a) (again a.id (omega (arith, above, l)) w))

newer_alerts_all :
    (hi low lo : ℕ) (lines : List Bytes)
    → low ≤ lo
    → Within hi lines lo
    → newer_alerts low lines ≡ alerts_in lines
unfolding newer_alerts Within
newer_alerts_all hi low lo [] l w = refl
newer_alerts_all hi low lo (line ∷ lines) l w =
    push_newer_all (parse_alert_line line) hi low lo lines l
      (λ x k v. newer_alerts_all hi low x lines k v) w

larger_id_least : (o : Option AlertRecord) (lo : ℕ) → lo ≤ larger_id o lo
larger_id_least none lo = omega arith
larger_id_least (some a) lo = ground arith

last_id_loop_least : (lines : List Bytes) (lo : ℕ) → lo ≤ last_id_loop lines lo
unfolding last_id_loop
last_id_loop_least [] lo = omega arith
last_id_loop_least (line ∷ lines) lo = omega (
  arith,
  larger_id_least (parse_alert_line line) lo,
  last_id_loop_least lines (larger_id (parse_alert_line line) lo),
)

-- Behind the last identifier of the lines from before are the alerts of the lines that came.
newer_alerts-append_next :
    (o : Option AlertRecord) (hi lo : ℕ) (lines more : List Bytes)
    → ((x : ℕ)
        → Within hi (lines ++ more) x
        → newer_alerts (last_id_loop lines x) (lines ++ more) ≡ alerts_in more)
    → NextWithin o (Within hi (lines ++ more)) lo
    → push_newer
        (last_id_loop lines (larger_id o lo))
        o
        (newer_alerts (last_id_loop lines (larger_id o lo)) (lines ++ more))
      ≡ alerts_in more
newer_alerts-append_next none hi lo lines more again w = again lo w
newer_alerts-append_next (some a) hi lo lines more again (above, w) =
    let larger : ltb lo a.id ≡ true = lt→ltb lo a.id above in
    let least = last_id_loop_least lines a.id in
    let old : leb a.id (last_id_loop lines a.id) ≡ true = ground arith in
    rw (larger, old) (again a.id w)

newer_alerts-append :
    (hi lo : ℕ) (lines more : List Bytes)
    → Within hi (lines ++ more) lo
    → newer_alerts (last_id_loop lines lo) (lines ++ more) ≡ alerts_in more
unfolding newer_alerts Within last_id_loop
newer_alerts-append hi lo [] more w = newer_alerts_all hi lo lo more (omega arith) w
newer_alerts-append hi lo (line ∷ lines) more w =
    newer_alerts-append_next (parse_alert_line line) hi lo lines more
      (λ x v. newer_alerts-append hi x lines more v) w

-- What a limit leaves out is the oldest; what is left out at all, is left out of a full answer.
ids-drop : (n : ℕ) (out : List AlertRecord) → (lost : List ℕ) × (ids out ≡ lost ++ ids (drop n out))
ids-drop zero out = ([], refl)
ids-drop (suc n) [] = ([], refl)
ids-drop (suc n) (a ∷ out) = let (lost, e) = ids-drop n out in (a.id ∷ lost, ap (◌∷◌ (a.id)) e)

abbrev pub Answers : ℕ → List ℕ → List AlertRecord → Type 0
Answers limit new answer =
    (lost : List ℕ) × (new ≡ lost ++ ids answer)
    × ((lost ≡ []) ⊎ ((1 ≤ limit) × (length answer ≡ limit)))

newest-Answers : (limit : ℕ) (out : List AlertRecord) → Answers limit (ids out) (newest limit out)
newest-Answers zero out = ([], refl, inl refl)
newest-Answers (suc n) out = elim (Bool-cases (ltb (suc n) (length out))) [
  | inl e ↦
      let (lost, same) = ids-drop (length out - suc n) out in
      let full : length (drop (length out - suc n) out) ≡ suc n =
        ground (arith, length-drop (length out - suc n) out) in
      rw e (lost, same, inr (omega arith, full))
  | inr e ↦ rw e ([], refl, inl refl)
]

-- In a numbered service, after any history of plain events that does not use up the identifiers, the
-- answer to a poll with the last identifier from before the history has exactly the identifiers of the
-- alerts that the history wrote into the file, in the order in which they were logged, each once.
-- Under a limit that is not 0 the oldest of them may be missing, and then the answer has exactly as
-- many alerts as the limit says.
pub get_alerts_since-serve_all :
    (es : List Event) (s : AuditService) (limit : ℕ)
    → AllPlain es
    → s.next_alert_id + length es < 2 ^ 64
    → IsNumbered s
    → Answers limit
        (issued es s)
        (get_alerts_since (load_last_alert_id s.alert_file) limit (serve_all es s))
unfolding get_alerts_since
get_alerts_since-serve_all es s limit p small (lines, h) =
    let (more, (text, clean, within), given) = serve_all-Grows es lines s p small h in
    let old : getlines 10 (contents s.alert_file) ≡ lines =
      ap (getlines 10) h.0 ∙ getlines-text_of lines h.1 in
    let new : getlines 10 (contents (serve_all es s).alert_file) ≡ lines ++ more =
      ap (getlines 10) text ∙ getlines-text_of (lines ++ more) clean in
    let last : load_last_alert_id s.alert_file ≡ last_id_loop lines 0 =
      load_last_alert_id-last_id_loop s.alert_file ∙ ap (λ t. last_id_loop t 0) old in
    let found = newer_alerts-append (serve_all es s).next_alert_id 0 lines more within in
    rw (new, last, found, ← given) (newest-Answers limit (alerts_in more))
