-- ===== src/Protocol/Tests.antt =====
-- A request in the header of common/src/protocol.cpp.
use encoder_next.Prelude.{
  ◌≡◌, ◌<◌, refl, none, some, [], ◌∷◌, ◌++◌, Bytes, codes, length, find, arith,
}
use encoder_next.Protocol.{Header, serialize, trim, trim_start, trim_end, read_header, read_loop}
use encoder_next.Protocol.RoundTrip.{AllFields, AllNew, read_header-serialize}

abbrev command : Bytes × Bytes
command = (codes "command", codes "encrypt a file")

abbrev others : Header
others = (codes "size", codes "42") ∷ []

fields_good : AllFields (command ∷ others)
unfolding trim trim_start trim_end
fields_good = ((refl, refl, refl, refl, refl, refl), ((refl, refl, refl, refl, refl, refl), tt))

fields_new : AllNew [] (command ∷ others)
unfolding find
fields_new = (refl, (refl, tt))

short : length (serialize (command ∷ others)) < 8192
unfolding serialize
short = omega arith

read_header-serialize_example :
    read_header 8192 (serialize (command ∷ others) ++ codes "body")
    ≡ some (command ∷ others, codes "body")
read_header-serialize_example =
    read_header-serialize 8192 command others (codes "body") fields_good fields_new short

-- The empty header is written as one line end, and the reader waits for a second one.
empty_not_read : read_header 8192 (serialize []) ≡ none
unfolding read_header read_loop serialize
empty_not_read = refl
