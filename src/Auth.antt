-- ===== src/Auth.antt =====
-- common/src/auth.cpp: the users, their passwords and what they may do.
-- PBKDF2 with its 120000 rounds is `derive`, from password and salt to 32 bytes, and the random salt
-- is an argument; both may fail. The file is a byte string; the order of the users in memory is open,
-- and this one is the order of arrival.
pub mod Passwords
mod Tests
pub mod File
use encoder_next.Prelude.{
  ℕ, ◌+◌, ◌-◌, ◌*◌, Bool, true, false, not, ◌&&◌, ◌||◌, Option, none, some, [], ◌∷◌, Bytes,
  is_empty, length, all, ltb, leb, ◌==◌, if◌then◌else◌, between, bytes_eq, hex_encode, Map, find,
  put,
}
use encoder_next.Wifi.Profile.{hex_value}

pub record UserRecord : Type 0 where
  pub username : Bytes
  pub salt_hex : Bytes
  pub hash_hex : Bytes
  pub blocked : Bool
  pub permissions : ℕ

-- `users_`.
abbrev pub UserStore : Type 0
UserStore = Map UserRecord

abbrev join : Option ℕ → Option ℕ → Option Bytes → Option Bytes
join (some hi) (some lo) (some rest) = some ((hi * 16 + lo) ∷ rest)
join _ _ _ = none

-- The loop of `hex_to_bytes`; `none` is the exception of `stoi`.
unfoldable pub hex_pairs : Bytes → Option Bytes
hex_pairs [] = some []
hex_pairs (a ∷ []) = some []
hex_pairs (a ∷ b ∷ rest) = join (hex_value a) (hex_value b) (hex_pairs rest)

abbrev is_odd : Bytes → Bool
is_odd [] = false
is_odd (a ∷ []) = true
is_odd (a ∷ b ∷ rest) = is_odd rest

unfoldable pub hex_to_bytes : Bytes → Option Bytes
hex_to_bytes hex = if is_odd hex then some [] else hex_pairs hex

abbrev pub is_name_char : ℕ → Bool
is_name_char c =
    between b'a' b'z' c
    || between b'A' b'Z' c
    || between b'0' b'9' c
    || c == b'_'
    || c == b'-'
    || c == b'.'

unfoldable pub valid_username : Bytes → Bool
valid_username username =
    not (is_empty username) && leb (length username) 64 && all is_name_char username

unfoldable pub exists : Bytes → UserStore → Bool
exists username users = elim (find username users) [ none ↦ false | some r ↦ true ]

unfoldable pub permissions_of : Bytes → UserStore → ℕ
permissions_of username users = elim (find username users) [ none ↦ 0 | some r ↦ r.permissions ]

unfoldable pub set_permissions : Bytes → ℕ → UserStore → Bool × UserStore
set_permissions username permissions users = elim (find username users) [
  | none ↦ (false, users)
  | some r ↦
      if ltb 3 permissions
      then (false, users)
      else (true, put username (record r { permissions = permissions }) users)
]

unfoldable pub set_blocked : Bytes → Bool → UserStore → Bool × UserStore
set_blocked username blocked users = elim (find username users) [
  | none ↦ (false, users)
  | some r ↦ (true, put username (record r { blocked = blocked }) users)
]

-- What a new record takes over from the old one.
abbrev pub kept_blocked : Option UserRecord → Bool
kept_blocked none = false
kept_blocked (some r) = r.blocked

abbrev pub kept_permissions : Option UserRecord → ℕ
kept_permissions none = 3
kept_permissions (some r) = r.permissions

module _ (derive : Bytes → Bytes → Option Bytes) where
  -- The hash in hexadecimal; `none` if the derivation fails or the salt does not read.
  unfoldable pub pbkdf2_hash : Bytes → Bytes → Option Bytes
  pbkdf2_hash password salt_hex = elim (hex_to_bytes salt_hex) [
    | none ↦ none
    | some salt ↦ elim (derive password salt) [ none ↦ none | some out ↦ some (hex_encode out) ]
  ]

  abbrev pub matches : Option Bytes → Bytes → Bool
  matches none hash = false
  matches (some computed) hash = not (is_empty computed) && bytes_eq computed hash

  abbrev pub verify_found : Bytes → Option UserRecord → Bool
  verify_found password none = false
  verify_found password (some r) =
      not r.blocked && matches (pbkdf2_hash password r.salt_hex) r.hash_hex

  unfoldable pub verify : Bytes → Bytes → UserStore → Bool
  verify username password users = verify_found password (find username users)

  -- `upsert` once the hash is computed.
  abbrev pub store_hash : Bytes → Bytes → Option Bytes → UserStore → Bool × UserStore
  store_hash username salt none users = (false, users)
  store_hash username salt (some hash) users =
      if is_empty salt || is_empty hash then (false, users) else (
        true,
        put username
            (record {
              username = username;
              salt_hex = salt;
              hash_hex = hash;
              blocked = kept_blocked (find username users);
              permissions = kept_permissions (find username users);
            })
            users,
      )

  abbrev pub store_salted : Bytes → Bytes → Option Bytes → UserStore → Bool × UserStore
  store_salted username password none users = (false, users)
  store_salted username password (some random) users =
      let salt = hex_encode random in store_hash username salt (pbkdf2_hash password salt) users

  unfoldable pub upsert : Bytes → Bytes → Option Bytes → UserStore → Bool × UserStore
  upsert username password random users =
      if (not (exists username users) && not (valid_username username))
        || is_empty password
        || ltb 1024 (length password)
      then (false, users)
      else store_salted username password random users
