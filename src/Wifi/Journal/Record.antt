-- ===== src/Wifi/Journal/Record.antt =====
-- The record of server/src/wifi_journal.cpp and its file format: 90 bytes of header, the backup
-- and a digest of 32 bytes.
pub mod RoundTrip
use encoder_next.Prelude.{
  ℕ, zero, suc, ◌+◌, ◌-◌, ◌*◌, ◌/◌, ◌%◌, ◌^◌, Bool, true, false, not, ◌&&◌, ◌||◌, Option, none,
  some, [], ◌∷◌, ◌++◌, Bytes, codes, leb, ltb, ◌==◌, if◌then◌else◌, is_empty, length, all, is_hex,
  take, drop, get_or, bytes_eq, Result, ok, err,
}

pub data RecoveryPhase : Type 0 where
  pending committed restored : RecoveryPhase

pub record RecoveryRecord : Type 0 where
  pub phase : RecoveryPhase
  pub previous_exists : Bool
  pub transaction : Bytes
  pub boot_id : Bytes
  pub deadline_ms : ℕ
  pub previous : Bytes

abbrev pub header : ℕ
header = 90

abbrev pub digest_size : ℕ
digest_size = 32

abbrev pub max_backup : ℕ
max_backup = 65536

unfoldable pub hex_string : Bytes → ℕ → Bool
hex_string text size = (length text == size) && all is_hex text

abbrev is_dash_place : ℕ → Bool
is_dash_place i = i == 8 || i == 13 || i == 18 || i == 23

-- The loop of `boot_valid` from place `i` on: the digits, or `none` where a dash is missing.
boot_loop : ℕ → Bytes → Option Bytes
boot_loop i [] = some []
boot_loop i (c ∷ rest) = elim (boot_loop (i + 1) rest) [
  | none ↦ none
  | some digits ↦
      if is_dash_place i then (if c == b'-' then some digits else none) else some (c ∷ digits)
]

unfoldable pub boot_valid : Bytes → Bool
unfolding boot_loop hex_string
boot_valid boot =
    (length boot == 36)
    && (elim (boot_loop 0 boot) [ none ↦ false | some digits ↦ hex_string digits 32 ])

-- The phase is one of three by its type.
unfoldable pub valid : RecoveryRecord → Bool
valid r =
    hex_string r.transaction 32
    && boot_valid r.boot_id
    && ltb 0 r.deadline_ms
    && leb (length r.previous) max_backup
    && (r.previous_exists || is_empty r.previous)

-- `put(target, value, bytes)`: the low bytes of the value, the highest first.
unfoldable pub put : ℕ → ℕ → Bytes
put value zero = []
put value (suc n) = put (value / 256) n ++ (value % 256 ∷ [])

-- `get`, on a uint64_t.
unfoldable pub get_loop : ℕ → Bytes → ℕ
get_loop value [] = value
get_loop value (b ∷ rest) = get_loop (value * 256 % 2 ^ 64 + b) rest

abbrev pub get : Bytes → ℕ
get source = get_loop 0 source

abbrev pub phase_byte : RecoveryPhase → ℕ
phase_byte pending = 1
phase_byte committed = 2
phase_byte restored = 3

abbrev pub phase_of_byte : ℕ → Option RecoveryPhase
phase_of_byte b =
    if b == 1
    then some pending
    else if b == 2
    then some committed
    else if b == 3
    then some restored
    else none

abbrev pub flag_byte : Bool → ℕ
flag_byte true = 1
flag_byte false = 0

-- What `save` lays out before the digest.
unfoldable pub body : RecoveryRecord → Bytes
body r =
    codes "ENCWIFI1"
    ++ (phase_byte r.phase
        ∷ flag_byte r.previous_exists
        ∷ (r.transaction
            ++ (r.boot_id ++ (put r.deadline_ms 8 ++ (put (length r.previous) 4 ++ r.previous)))))

abbrev pub slice : ℕ → ℕ → Bytes → Bytes
slice i n b = take n (drop i b)

-- The record that `load` takes from the places of a file, if the phase is one.
unfoldable pub fields : Bytes → Option RecoveryRecord
fields b = elim (phase_of_byte (get_or b 8 0)) [
  | none ↦ none
  | some phase ↦ some (record {
    phase = phase;
    previous_exists = not (get_or b 9 0 == 0);
    transaction = slice 10 32 b;
    boot_id = slice 42 36 b;
    deadline_ms = get (slice 78 8 b);
    previous = slice header (length b - header - digest_size) b;
  })
]

module _ (checksum : Bytes → Option Bytes) where
  unfoldable pub encode : RecoveryRecord → Option Bytes
  encode r = elim (checksum (body r)) [ none ↦ none | some digest ↦ some (body r ++ digest) ]

  -- The digest at the end of a file whose backup has the size given.
  unfoldable pub digest_matches : Bytes → ℕ → Bool
  digest_matches b size = elim (checksum (take (header + size) b)) [
    | none ↦ false
    | some digest ↦ bytes_eq digest (drop (header + size) b)
  ]

  -- The file has the size of a header and a digest at least, which `load` has checked.
  unfoldable pub decode : Bytes → Result RecoveryRecord
  decode b =
      let size = length b - header - digest_size in
      if not (bytes_eq (slice 0 8 b) (codes "ENCWIFI1"))
        || ltb 1 (get_or b 9 0)
        || not (get (slice 86 4 b) == size)
        || not (digest_matches b size)
      then err "Corrupted recovery journal"
      else elim (fields b) [
        | none ↦ err "Invalid recovery journal fields"
        | some r ↦ if not (valid r) then err "Invalid recovery journal fields" else ok r
      ]
