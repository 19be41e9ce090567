-- ===== src/Protocol/Transfer.antt =====
-- The loops that send and receive a whole text over a stream that takes or gives a part at a time:
-- `write_header` of common/src/protocol.cpp, and `write_all` and `read_exact` of server/src/main.cpp.
-- They run on a number of rounds; `none` is a loop that would need another one.
pub mod Rounds
mod Tests
use encoder_next.Prelude.{
  ℕ, zero, suc, ◌-◌, ◌≤◌, ◌≡◌, Bool, true, false, Option, none, some, List, [], ◌∷◌, ◌++◌, Bytes,
  length, is_empty, take, drop,
}
use encoder_next.Protocol.{Header, serialize}

-- How many of the offered bytes the stream takes, after what it took already; `none` is an error.
abbrev pub Sink : Type 0
Sink = Bytes → Bytes → Option ℕ

-- Behind the call of `write`: what was sent, and what is left to send.
unfoldable pub write_loop : Sink → ℕ → Bytes → Bytes → Option (Bool × Bytes)
write_loop sink rounds sent [] = some (true, sent)
write_loop sink zero sent (c ∷ cs) = none
write_loop sink (suc rounds) sent (c ∷ cs) = elim (sink sent (c ∷ cs)) [
  | none ↦ some (false, sent)
  | some n ↦ write_loop sink rounds (sent ++ take n (c ∷ cs)) (drop n (c ∷ cs))
]

unfoldable pub write_all : Sink → Bytes → Bytes → Option (Bool × Bytes)
write_all sink sent data' = write_loop sink (length data') sent data'

unfoldable pub write_header : Sink → Bytes → Header → Option (Bool × Bytes)
write_header sink sent header = write_all sink sent (serialize header)

-- How many bytes a read of that size gives of those that are to come.
abbrev pub Chunks : Type 0
Chunks = ℕ → Bytes → ℕ

-- The inner `none` is the end of the stream before all is read.
abbrev pub add_chunk : Bytes → Option (Option (Bytes × Bytes)) → Option (Option (Bytes × Bytes))
add_chunk chunk none = none
add_chunk chunk (some none) = some none
add_chunk chunk (some (some (rest, stream))) = some (some (chunk ++ rest, stream))

unfoldable pub read_loop : Chunks → ℕ → ℕ → Bytes → Option (Option (Bytes × Bytes))
read_loop chunks rounds zero stream = some (some ([], stream))
read_loop chunks zero (suc size) stream = none
read_loop chunks (suc rounds) (suc size) [] = some none
read_loop chunks (suc rounds) (suc size) (c ∷ cs) =
    let n = chunks (suc size) (c ∷ cs) in
    add_chunk (take n (c ∷ cs)) (read_loop chunks rounds (suc size - n) (drop n (c ∷ cs)))

unfoldable pub read_exact : Chunks → ℕ → Bytes → Option (Option (Bytes × Bytes))
read_exact chunks size stream = read_loop chunks size size stream
