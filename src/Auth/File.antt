-- ===== src/Auth/File.antt =====
-- The user file of common/src/auth.cpp: what `save` writes and `load` reads.
pub mod RoundTrip
use encoder_next.Prelude.{
  decimal, getlines, ℕ, zero, suc, ◌+◌, ◌-◌, ◌/◌, ◌%◌, Bool, true, false, not, ◌&&◌, Option, none,
  some, List, [], ◌∷◌, ◌++◌, Bytes, codes, ltb, ◌==◌, if◌then◌else◌, between, bytes_eq, put,
}
use encoder_next.Auth.{UserRecord, UserStore}

abbrev pub blocked_digit : Bool → ℕ
blocked_digit true = b'1'
blocked_digit false = b'0'

-- A line without its end.
unfoldable pub user_line : UserRecord → Bytes
user_line r =
    r.username
    ++ (b':'
        ∷ (r.salt_hex
            ++ (b':'
                ∷ (r.hash_hex ++ (b':' ∷ blocked_digit r.blocked ∷ b':' ∷ decimal r.permissions)))))

unfoldable pub user_file : UserStore → Bytes
user_file [] = []
user_file (x ∷ xs) = user_line x.1 ++ (10 ∷ user_file xs)

-- `save`: opening or writing the temporary file fails, or renaming it.
unfoldable pub save : Bool → Bool → UserStore → Option Bytes → Bool × Option Bytes
save write_fails rename_fails users disk =
    if write_fails
    then (false, disk)
    else if rename_fails
    then (false, disk)
    else (true, some (user_file users))

-- Drops a carriage return at the end.
unfoldable pub chomp : Bytes → Bytes
chomp [] = []
chomp (c ∷ []) = if c == 13 then [] else c ∷ []
chomp (c ∷ d ∷ rest) = c ∷ chomp (d ∷ rest)

abbrev pub read_permissions : Bytes → ℕ
read_permissions (c ∷ []) = if between b'0' b'3' c then c - b'0' else 0
read_permissions _ = 0

unfoldable pub read_blocked : List Bytes → Bool
read_blocked [] = false
read_blocked (text ∷ _) = not (bytes_eq (chomp text) (codes "0"))

unfoldable pub read_flags : List Bytes → ℕ
read_flags (blocked ∷ text ∷ _) = read_permissions (chomp text)
read_flags _ = 3

unfoldable pub load_fields : List Bytes → UserStore → UserStore
load_fields (username ∷ salt ∷ hash ∷ more) users =
    put username
      (record {
        username = username;
        salt_hex = salt;
        hash_hex = hash;
        blocked = read_blocked more;
        permissions = read_flags more;
      })
      users
load_fields _ users = users

unfoldable pub load_line : Bytes → UserStore → UserStore
load_line [] users = users
load_line (c ∷ cs) users = if c == b'#' then users else load_fields (getlines b':' (c ∷ cs)) users

unfoldable pub load_lines : List Bytes → UserStore → UserStore
load_lines [] users = users
load_lines (line ∷ lines) users = load_lines lines (load_line line users)

-- `load` of a file that can be opened; `none` cannot, and leaves no users.
unfoldable pub load : Option Bytes → Bool × UserStore
load none = (false, [])
load (some text) = (true, load_lines (getlines 10 text) [])
