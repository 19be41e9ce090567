-- ===== src/Protocol/Transfer/Tests.antt =====
-- Transfers in parts.
use encoder_next.Prelude.{ℕ, ◌≡◌, refl, true, some, [], ◌∷◌, Bytes, codes, Option, none, arith}
use encoder_next.Protocol.{Header, serialize}
use encoder_next.Protocol.Transfer.{
  Sink, Chunks, write_header, write_all, write_loop, read_exact, read_loop,
}
use encoder_next.Protocol.Transfer.Rounds.{
  Takes, Sent, Gives, at_once, write_header-Sent, read_exact-at_once,
}

-- One byte at a time.
abbrev one_of : Bytes → Option ℕ
one_of [] = none
one_of (c ∷ cs) = some 1

abbrev slow : Sink
slow sent bytes = one_of bytes

slow-Takes : Takes slow
slow-Takes sent [] n h = absurd (cc h)
slow-Takes sent (c ∷ cs) n h = ground arith

abbrev singly : Chunks
singly size stream = 1

singly-Gives : Gives singly
singly-Gives size stream h k = (omega arith, h, k)

abbrev header : Header
header = (codes "op", codes "encrypt") ∷ []

write_header-Sent_example :
    Sent (codes "x") (serialize header) (write_header slow (codes "x") header)
write_header-Sent_example = write_header-Sent slow slow-Takes (codes "x") header

all_sent : write_header slow [] header ≡ some (true, serialize header)
unfolding write_header write_all write_loop serialize
all_sent = refl

read_exact-at_once_example : read_exact singly 3 (codes "abcd") ≡ some (at_once 3 (codes "abcd"))
read_exact-at_once_example = read_exact-at_once singly singly-Gives 3 (codes "abcd")

cut_off : read_exact singly 3 (codes "ab") ≡ some none
unfolding read_exact read_loop
cut_off = refl
