-- ===== src/Auth/File/RoundTrip.antt =====
-- A user file that `save` of common/src/auth.cpp has written loads as the users that were saved.
use encoder_next.Prelude.{
  decimal, decimal_loop, getlines, getlines-field, not_sep, ℕ, zero, suc, ◌+◌, ◌≤◌, ◌≡◌, refl, sym,
  ap, ◌∙◌, Bool, true, false, not, Option, none, List, [], ◌∷◌, ◌++◌, append-nil, append_assoc,
  Bytes, all, all-append, is_hex, ◌==◌, find, put, put_new, arith,
}
use encoder_next.Auth.{UserRecord, UserStore, valid_username, is_name_char}
use encoder_next.Auth.File.{
  blocked_digit, user_line, user_file, save, chomp, read_blocked, read_flags, load_fields,
  load_line, load_lines, load,
}

all_mono :
    (p q : ℕ → Bool)
    → ((c : ℕ) → p c ≡ true → q c ≡ true)
    → (xs : Bytes) → all p xs ≡ true
    → all q xs ≡ true
all_mono p q m [] h = refl
all_mono p q m (x ∷ xs) h = ground (arith, m x, all_mono p q m xs)

one_digit : (n : ℕ) → n ≤ 3 → decimal n ≡ (b'0' + n) ∷ []
unfolding decimal decimal_loop
one_digit zero h = refl
one_digit (suc zero) h = refl
one_digit (suc (suc zero)) h = refl
one_digit (suc (suc (suc zero))) h = refl
one_digit (suc (suc (suc (suc n)))) h = absurd (omega arith)

-- A record under its own name, as `upsert` makes them: a valid name, salt and hash in hexadecimal,
-- and two permission bits.
abbrev pub IsUser : Bytes × UserRecord → Type 0
IsUser x =
    (x.0 ≡ x.1.username)
    × (valid_username x.1.username ≡ true)
    × (all is_hex x.1.salt_hex ≡ true)
    × (all is_hex x.1.hash_hex ≡ true)
    × (x.1.permissions ≤ 3)

abbrev pub AllUsers : UserStore → Type 0
AllUsers [] = Unit {0}
AllUsers (x ∷ xs) = IsUser x × AllUsers xs

-- Each name is new to the users before it.
abbrev pub AllNew : UserStore → UserStore → Type 0
AllNew before [] = Unit {0}
AllNew before (x ∷ xs) = (find x.0 before ≡ none) × AllNew (before ++ (x ∷ [])) xs

name_colon : (c : ℕ) → is_name_char c ≡ true → not_sep b':' c ≡ true
name_colon c h = ground arith

name_end : (c : ℕ) → is_name_char c ≡ true → not_sep 10 c ≡ true
name_end c h = ground arith

hex_colon : (c : ℕ) → is_hex c ≡ true → not_sep b':' c ≡ true
hex_colon c h = ground arith

hex_end : (c : ℕ) → is_hex c ≡ true → not_sep 10 c ≡ true
hex_end c h = ground arith

name_all : (name : Bytes) → valid_username name ≡ true → all is_name_char name ≡ true
unfolding valid_username
name_all name h = ground arith

abbrev line_fields : UserRecord → List Bytes
line_fields r =
    r.username
    ∷ r.salt_hex
    ∷ r.hash_hex
    ∷ (blocked_digit r.blocked ∷ [])
    ∷ ((b'0' + r.permissions) ∷ [])
    ∷ []

flag_line :
    (b : Bool) (d : ℕ)
    → d ≤ 3
    → getlines b':' (blocked_digit b ∷ b':' ∷ (b'0' + d) ∷ [])
      ≡ (blocked_digit b ∷ []) ∷ ((b'0' + d) ∷ []) ∷ []
unfolding getlines
flag_line true d h = ground arith
flag_line false d h = ground arith

getlines-user_line :
    (x : Bytes × UserRecord) → IsUser x → getlines b':' (user_line x.1) ≡ line_fields x.1
unfolding user_line
getlines-user_line (k, r) (own, name, salt, hash, few) =
    let rest₃ = blocked_digit r.blocked ∷ b':' ∷ (b'0' + r.permissions) ∷ [] in
    let rest₂ = r.hash_hex ++ (b':' ∷ rest₃) in
    rw (one_digit r.permissions few) (
      getlines-field b':' r.username (r.salt_hex ++ (b':' ∷ rest₂))
        (all_mono _ _ name_colon r.username (name_all r.username name))
      ∙ ap (◌∷◌ r.username) (
          getlines-field b':' r.salt_hex rest₂ (all_mono _ _ hex_colon r.salt_hex salt)
          ∙ ap (◌∷◌ r.salt_hex) (
              getlines-field b':' r.hash_hex rest₃ (all_mono _ _ hex_colon r.hash_hex hash)
              ∙ ap (◌∷◌ r.hash_hex) (flag_line r.blocked r.permissions few))))

flags_back :
    (b : Bool) (d : ℕ) (more : List Bytes)
    → d ≤ 3
    → (read_blocked ((blocked_digit b ∷ []) ∷ more) ≡ b)
      × (read_flags ((blocked_digit b ∷ []) ∷ ((b'0' + d) ∷ []) ∷ []) ≡ d)
unfolding read_blocked read_flags chomp
flags_back true d more h = ground arith
flags_back false d more h = ground arith

-- No comment, and not empty.
abbrev is_entry : Bytes → Bool
is_entry [] = false
is_entry (c ∷ cs) = not (c == b'#')

load_line_entry :
    (line : Bytes) (fs : List Bytes) (users : UserStore)
    → is_entry line ≡ true
    → getlines b':' line ≡ fs
    → load_line line users ≡ load_fields fs users
unfolding load_line
load_line_entry [] fs users h e = cc
load_line_entry (c ∷ cs) fs users h e =
    let other : (c == b'#') ≡ false = ground arith in rw (other, e) refl

name_entry : (name rest : Bytes) → valid_username name ≡ true → is_entry (name ++ rest) ≡ true
unfolding valid_username
name_entry [] rest h = cc
name_entry (c ∷ cs) rest h = ground arith

load_fields-line_fields :
    (r : UserRecord) (users : UserStore)
    → r.permissions ≤ 3
    → load_fields (line_fields r) users ≡ put r.username r users
unfolding load_fields
load_fields-line_fields r users h =
    let (blocked, few) =
      flags_back r.blocked r.permissions (((b'0' + r.permissions) ∷ []) ∷ []) h in
    rw (blocked, few) refl

load_line-user_line :
    (x : Bytes × UserRecord) (users : UserStore)
    → IsUser x
    → load_line (user_line x.1) users ≡ put x.0 x.1 users
unfolding user_line
load_line-user_line (k, r) users u =
    load_line_entry (user_line r) (line_fields r) users (name_entry r.username _ u.1)
      (getlines-user_line (k, r) u)
    ∙ load_fields-line_fields r users u.4
    ∙ ap (λ n. put n r users) (sym u.0)

tail_plain :
    (b : Bool) (d : ℕ)
    → d ≤ 3
    → all (not_sep 10) (b':' ∷ blocked_digit b ∷ b':' ∷ (b'0' + d) ∷ []) ≡ true
tail_plain true d h = ground arith
tail_plain false d h = ground arith

line_plain : (x : Bytes × UserRecord) → IsUser x → all (not_sep 10) (user_line x.1) ≡ true
unfolding user_line
line_plain (k, r) (own, name, salt, hash, few) =
    let n = all_mono _ _ name_end r.username (name_all r.username name) in
    let s = all_mono _ _ hex_end r.salt_hex salt in
    let h = all_mono _ _ hex_end r.hash_hex hash in
    rw (one_digit r.permissions few) (
      all-append (not_sep 10) r.username _ n (
        all-append (not_sep 10) r.salt_hex _ s
          (all-append (not_sep 10) r.hash_hex _ h (tail_plain r.blocked r.permissions few))))

abbrev user_lines : UserStore → List Bytes
user_lines [] = []
user_lines (x ∷ xs) = user_line x.1 ∷ user_lines xs

getlines-user_file :
    (users : UserStore) → AllUsers users → getlines 10 (user_file users) ≡ user_lines users
unfolding user_file getlines
getlines-user_file [] u = refl
getlines-user_file (x ∷ xs) u =
    getlines-field 10 (user_line x.1) (user_file xs) (line_plain x u.0)
    ∙ ap (◌∷◌ (user_line x.1)) (getlines-user_file xs u.1)

load_lines-user_lines :
    (before users : UserStore)
    → AllUsers users
    → AllNew before users
    → load_lines (user_lines users) before ≡ before ++ users
unfolding load_lines
load_lines-user_lines before [] u n = sym (append-nil before)
load_lines-user_lines before (x ∷ xs) u n =
    ap (load_lines (user_lines xs)) (load_line-user_line x before u.0 ∙ put_new x.0 x.1 before n.0)
    ∙ load_lines-user_lines (before ++ (x ∷ [])) xs u.1 n.1
    ∙ append_assoc before (x ∷ []) xs

-- Users with distinct names, each under a valid name of its own, with salt and hash in hexadecimal
-- and at most two permission bits, come back from the file that a successful `save` writes.
pub load-save :
    (users : UserStore) (old : Option Bytes)
    → AllUsers users
    → AllNew [] users
    → load (save false false users old).1 ≡ (true, users)
unfolding load save
load-save users old u n = rw (getlines-user_file users u, load_lines-user_lines [] users u n) refl
