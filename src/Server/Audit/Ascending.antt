-- ===== src/Server/Audit/Ascending.antt =====
-- Alert files of server/src/audit.cpp: whole lines whose identifiers ascend.
use encoder_next.Prelude.{
  ℕ, suc, ◌<◌, ◌≤◌, ◌≡◌, refl, sym, ap, ◌∙◌, true, Option, none, some, List, [], ◌∷◌, ◌++◌,
  append_assoc, Bytes, all, ltb, lt→ltb, getlines, getlines-field, not_sep, arith,
}
use encoder_next.Server.Audit.{
  AlertRecord, parse_alert_line, larger_id, last_id_loop, load_last_alert_id, contents,
}

-- Lines with their ends.
abbrev pub text_of : List Bytes → Bytes
text_of [] = []
text_of (line ∷ lines) = line ++ (10 ∷ text_of lines)

abbrev pub AllLines : List Bytes → Type 0
AllLines [] = Unit {0}
AllLines (line ∷ lines) = (all (not_sep 10) line ≡ true) × AllLines lines

-- The alerts of the lines that read, and their identifiers.
abbrev pub add_alert : Option AlertRecord → List AlertRecord → List AlertRecord
add_alert none rest = rest
add_alert (some a) rest = a ∷ rest

abbrev pub alerts_in : List Bytes → List AlertRecord
alerts_in [] = []
alerts_in (line ∷ lines) = add_alert (parse_alert_line line) (alerts_in lines)

abbrev pub ids : List AlertRecord → List ℕ
ids [] = []
ids (a ∷ alerts) = a.id ∷ ids alerts

abbrev pub NextWithin : Option AlertRecord → (ℕ → Type 0) → ℕ → Type 0
NextWithin none rest lo = rest lo
NextWithin (some a) rest lo = (lo < a.id) × rest a.id

-- The identifiers of the lines that read ascend, above the first bound and below the second.
unfoldable pub Within : ℕ → List Bytes → ℕ → Type 0
Within hi [] lo = lo < hi
Within hi (line ∷ lines) lo = NextWithin (parse_alert_line line) (Within hi lines) lo

pub getlines-text_of : (lines : List Bytes) → AllLines lines → getlines 10 (text_of lines) ≡ lines
unfolding getlines
getlines-text_of [] c = refl
getlines-text_of (line ∷ lines) c =
    getlines-field 10 line (text_of lines) c.0 ∙ ap (◌∷◌ line) (getlines-text_of lines c.1)

pub text_of-append : (xs ys : List Bytes) → text_of (xs ++ ys) ≡ text_of xs ++ text_of ys
text_of-append [] ys = refl
text_of-append (x ∷ xs) ys =
    rw (text_of-append xs ys) (sym (append_assoc x (10 ∷ text_of xs) (text_of ys)))

pub AllLines-append : (xs ys : List Bytes) → AllLines xs → AllLines ys → AllLines (xs ++ ys)
AllLines-append [] ys c d = d
AllLines-append (x ∷ xs) ys c d = (c.0, AllLines-append xs ys c.1 d)

NextWithin-map :
    (o : Option AlertRecord) (P Q : ℕ → Type 0) (lo : ℕ)
    → ((x : ℕ) → P x → Q x)
    → NextWithin o P lo
    → NextWithin o Q lo
NextWithin-map none P Q lo f w = f lo w
NextWithin-map (some a) P Q lo f w = (w.0, f a.id w.1)

pub Within-grow :
    (hi more : ℕ) (lines : List Bytes) (lo : ℕ)
    → hi ≤ more
    → Within hi lines lo
    → Within more lines lo
unfolding Within
Within-grow hi more [] lo h w = omega (arith, h, w)
Within-grow hi more (line ∷ lines) lo h w =
    NextWithin-map (parse_alert_line line) (Within hi lines) (Within more lines) lo
      (λ x v. Within-grow hi more lines x h v) w

-- The next identifier, behind the others.
pub Within-snoc :
    (hi : ℕ) (lines : List Bytes) (line : Bytes) (a : AlertRecord) (lo : ℕ)
    → parse_alert_line line ≡ some a
    → a.id ≡ hi
    → Within hi lines lo
    → Within (suc hi) (lines ++ (line ∷ [])) lo
unfolding Within
Within-snoc hi [] line a lo p i w = rw (Within, p) (omega (arith, i, w), omega (arith, i))
Within-snoc hi (x ∷ xs) line a lo p i w =
    NextWithin-map (parse_alert_line x) (Within hi xs) (Within (suc hi) (xs ++ (line ∷ []))) lo
      (λ y v. Within-snoc hi xs line a y p i v) w

-- Where the loop of `load_last_alert_id` ends.
abbrev EndsAt : ℕ → List Bytes → ℕ → ℕ → Type 0
EndsAt hi lines lo last = Within (suc last) lines lo × (lo ≤ last) × (last < hi)

ends_next :
    (o : Option AlertRecord) (hi : ℕ) (lines : List Bytes) (lo : ℕ)
    → ((x : ℕ) → Within hi lines x → EndsAt hi lines x (last_id_loop lines x))
    → NextWithin o (Within hi lines) lo
    → NextWithin o (Within (suc (last_id_loop lines (larger_id o lo))) lines) lo
      × (lo ≤ last_id_loop lines (larger_id o lo))
      × (last_id_loop lines (larger_id o lo) < hi)
ends_next none hi lines lo again w = again lo w
ends_next (some a) hi lines lo again (l, v) =
    let above : ltb lo a.id ≡ true = lt→ltb lo a.id l in
    let (inside, least, below) = again a.id v in
    rw above ((l, inside), omega (arith, l, least), below)

-- The largest identifier is the last one.
pub last_id_loop-EndsAt :
    (hi : ℕ) (lines : List Bytes) (lo : ℕ)
    → Within hi lines lo
    → EndsAt hi lines lo (last_id_loop lines lo)
unfolding Within last_id_loop
last_id_loop-EndsAt hi [] lo w = (omega arith, omega arith, w)
last_id_loop-EndsAt hi (line ∷ lines) lo w =
    ends_next (parse_alert_line line) hi lines lo (λ x v. last_id_loop-EndsAt hi lines x v) w

pub load_last_alert_id-last_id_loop :
    (file : Option Bytes) → load_last_alert_id file ≡ last_id_loop (getlines 10 (contents file)) 0
unfolding load_last_alert_id last_id_loop getlines
load_last_alert_id-last_id_loop none = refl
load_last_alert_id-last_id_loop (some text) = refl
