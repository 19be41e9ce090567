-- ===== src/Encoding/Base64.antt =====
-- common/src/base64.cpp. The decoder's `val` is a 32-bit pattern, and `shift` is its `valb` plus 8.
pub mod RoundTrip
mod Tests
use encoder_next.Prelude.{
  ℕ, ◌+◌, ◌-◌, ◌*◌, ◌/◌, ◌%◌, ◌^◌, Bool, true, false, ◌&&◌, ◌||◌, Option, none, some, List, [], ◌∷◌,
  Bytes, codes, leb, ◌==◌, if◌then◌else◌, between, get_or,
}

abbrev pub alphabet : Bytes
alphabet = codes "ABCDEFGHIJKLMNOPQRSTUVWXYZabcdefghijklmnopqrstuvwxyz0123456789+/"

abbrev pub symbol : ℕ → ℕ
symbol i = get_or alphabet i 0

-- A round of the loop takes three bytes; what stands behind the loop takes the last one or two.
unfoldable pub base64_encode : Bytes → Bytes
base64_encode [] = []
base64_encode (a ∷ []) =
    let triple = a * 65536 in
    symbol (triple / 2 ^ 18 % 64) ∷ symbol (triple / 2 ^ 12 % 64) ∷ b'=' ∷ b'=' ∷ []
base64_encode (a ∷ b ∷ []) =
    let triple = a * 65536 + b * 256 in
    symbol (triple / 2 ^ 18 % 64)
    ∷ symbol (triple / 2 ^ 12 % 64)
    ∷ symbol (triple / 2 ^ 6 % 64)
    ∷ b'='
    ∷ []
base64_encode (a ∷ b ∷ c ∷ rest) =
    let triple = a * 65536 + b * 256 + c in
    symbol (triple / 2 ^ 18 % 64)
    ∷ symbol (triple / 2 ^ 12 % 64)
    ∷ symbol (triple / 2 ^ 6 % 64)
    ∷ symbol (triple % 64)
    ∷ base64_encode rest

-- `none` is the source's -1.
unfoldable pub base64_value : ℕ → Option ℕ
base64_value c =
    if between b'A' b'Z' c
    then some (c - b'A')
    else if between b'a' b'z' c
    then some (c - b'a' + 26)
    else if between b'0' b'9' c
    then some (c - b'0' + 52)
    else if c == b'+'
    then some 62
    else if c == b'/'
    then some 63
    else none

abbrev pub is_skipped : ℕ → Bool
is_skipped c = c == b'=' || c == 10 || c == 13 || c == b' ' || c == 9

pub record Decoder : Type 0 where
  pub val : ℕ
  pub shift : ℕ

-- What one character does: the new variables, the byte that is written, and whether it is in order.
abbrev pub Round : Type 0
Round = Decoder × Option ℕ × Bool

unfoldable pub add_sextet : ℕ → Decoder → Round
add_sextet v d =
    let val = (d.val * 64 + v) % 2 ^ 32 in
    let shift = d.shift + 6 in
    if leb 8 shift
    then (record { val = val; shift = shift - 8 }, some (val / 2 ^ (shift - 8) % 256), true)
    else (record { val = val; shift = shift }, none, true)

unfoldable pub decode_round : ℕ → Decoder → Round
decode_round c d =
    if is_skipped c
    then (d, none, true)
    else elim (base64_value c) [ none ↦ (d, none, false) | some v ↦ add_sextet v d ]

abbrev pub push : Option ℕ → Bytes → Bytes
push none out = out
push (some b) out = b ∷ out

-- The loop from a character on: what it writes, and whether it leaves `success` as it is.
unfoldable pub decode_loop : Bytes → Decoder → Bytes × Bool
decode_loop [] d = ([], true)
decode_loop (c ∷ text) d =
    let (d', byte, fine) = decode_round c d in
    let rest = decode_loop text d' in (push byte rest.0, fine && rest.1)

unfoldable pub base64_decode : Bytes → Bytes × Bool
base64_decode text = decode_loop text (record { val = 0; shift = 0 })
