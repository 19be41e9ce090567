-- ===== src/Auth/Passwords.antt =====
-- A password that common/src/auth.cpp has stored, and the users that nothing was stored for.
use encoder_next.Prelude.{
  find-put_same, find-put_other, ℕ, ◌≡◌, ◌≢◌, refl, ap, ◌∙◌, Bool, true, false, not, ◌&&◌, ◌||◌,
  Option, none, some, Bytes, is_empty, if_both, bytes_eq, bytes_eq_refl, hex_encode, find, arith,
  Bool-cases, inl, inr,
}
use encoder_next.Auth.{
  UserRecord, UserStore, kept_blocked, kept_permissions, pbkdf2_hash, verify_found, verify,
  store_hash, upsert, permissions_of,
}

abbrev permissions_in : Option UserRecord → ℕ
permissions_in none = 0
permissions_in (some r) = r.permissions

or_false : (a b : Bool) → (a || b) ≡ false → b ≡ false
or_false a b h = ground arith

let_in :
    (blocked : Bool) (hash : Bytes)
    → is_empty hash ≡ false
    → (not blocked && (not (is_empty hash) && bytes_eq hash hash)) ≡ not blocked
let_in blocked hash h = ground (arith, bytes_eq_refl hash)

module _ (derive : Bytes → Bytes → Option Bytes) where
  -- What a successful `upsert` leaves.
  abbrev Stored : Bytes → Bytes → UserStore → Bool × UserStore → Type 0
  Stored username password users s =
      s.0 ≡ true
      → (verify derive username password s.1 ≡ not (kept_blocked (find username users)))
        × (permissions_of username s.1 ≡ kept_permissions (find username users))
        × ((other : Bytes) → other ≢ username → find other s.1 ≡ find other users)

  unsuccessful :
      (username password : Bytes) (users : UserStore)
      → Stored username password users (false, users)
  unsuccessful username password users h = cc

  store_hash-Stored :
      (username password salt : Bytes) (o : Option Bytes) (users : UserStore)
      → pbkdf2_hash derive password salt ≡ o
      → Stored username password users (store_hash derive username salt o users)
  unfolding verify permissions_of
  store_hash-Stored username password salt none users e = unsuccessful username password users
  store_hash-Stored username password salt (some hash) users e =
      let r : UserRecord = record {
        username = username;
        salt_hex = salt;
        hash_hex = hash;
        blocked = kept_blocked (find username users);
        permissions = kept_permissions (find username users);
      } in
      let same = find-put_same username r users in
      elim (Bool-cases (is_empty salt || is_empty hash)) [
        | inl bad ↦ rw bad (unsuccessful username password users)
        | inr fine ↦ rw fine (λ h. (
          ap (verify_found derive password) same
              ∙ rw e (let_in r.blocked hash (or_false (is_empty salt) (is_empty hash) fine)),
          ap permissions_in same,
          λ other k. find-put_other username other r users k,
        ))
      ]

  -- After an `upsert` that succeeds, the user is let in with the new password exactly if they were
  -- not blocked before, keeps the old permissions (3 if there was no such user), and no record of
  -- another user has changed.
  pub verify-upsert :
      (username password : Bytes) (random : Option Bytes) (users : UserStore)
      → (upsert derive username password random users).0 ≡ true
      → let users' = (upsert derive username password random users).1 in
        (verify derive username password users' ≡ not (kept_blocked (find username users)))
        × (permissions_of username users' ≡ kept_permissions (find username users))
        × ((other : Bytes) → other ≢ username → find other users' ≡ find other users)
  unfolding upsert
  verify-upsert username password none users =
      if_both (Stored username password users) _ _ _ (unsuccessful username password users)
        (unsuccessful username password users)
  verify-upsert username password (some random) users =
      if_both (Stored username password users) _ _ _ (unsuccessful username password users) (
        store_hash-Stored username password (hex_encode random)
          (pbkdf2_hash derive password (hex_encode random)) users refl)
