-- ===== src/Auth/Tests.antt =====
-- Two users of common/src/auth.cpp, with a derivation that copies the password.
use encoder_next.Prelude.{
  ◌≡◌, ◌≢◌, refl, true, false, not, Option, none, some, [], ◌∷◌, Bytes, codes, replicate, find,
  arith,
}
use encoder_next.Auth.{
  UserRecord, UserStore, kept_blocked, kept_permissions, verify, upsert, permissions_of,
  valid_username, exists, pbkdf2_hash, hex_to_bytes, hex_pairs,
}
use encoder_next.Auth.Passwords.{verify-upsert}
use encoder_next.Auth.File.{save, load}
use encoder_next.Auth.File.RoundTrip.{AllUsers, AllNew, load-save}

abbrev copy : Bytes → Bytes → Option Bytes
copy password salt = some password

abbrev alice : UserRecord
alice = record {
  username = codes "alice";
  salt_hex = codes "00ff";
  hash_hex = codes "abcd";
  blocked = true;
  permissions = 1;
}

abbrev bob : UserRecord
bob = record {
  username = codes "b.ob-2";
  salt_hex = codes "1234";
  hash_hex = codes "5678";
  blocked = false;
  permissions = 3;
}

abbrev users : UserStore
users = (codes "alice", alice) ∷ (codes "b.ob-2", bob) ∷ []

accepted : (upsert copy (codes "alice") (codes "secret") (some (replicate 16 7)) users).0 ≡ true
unfolding upsert exists find pbkdf2_hash hex_to_bytes hex_pairs
accepted = refl

verify-upsert_example :
    let users' = (upsert copy (codes "alice") (codes "secret") (some (replicate 16 7)) users).1 in
    (verify copy (codes "alice") (codes "secret") users'
      ≡ not (kept_blocked (find (codes "alice") users)))
    × (permissions_of (codes "alice") users' ≡ kept_permissions (find (codes "alice") users))
    × ((other : Bytes) → other ≢ codes "alice" → find other users' ≡ find other users)
verify-upsert_example =
    verify-upsert copy (codes "alice") (codes "secret") (some (replicate 16 7)) users accepted

users_good : AllUsers users
unfolding valid_username
users_good = ((refl, refl, refl, refl, omega arith), ((refl, refl, refl, refl, omega arith), tt))

users_new : AllNew [] users
unfolding find
users_new = (refl, (refl, tt))

load-save_example : load (save false false users none).1 ≡ (true, users)
load-save_example = load-save users none users_good users_new
