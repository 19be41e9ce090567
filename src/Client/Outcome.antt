-- ===== src/Client/Outcome.antt =====
-- How a command of client/src/client_core.cpp ends, and its lines in client.log.
use encoder_next.Prelude.{
  ℕ, suc, ℤ, List, put, Option, none, some, [], ◌∷◌, ◌++◌, Bytes, codes, Map, find, Result, ok, err,
}
use encoder_next.Server.Context.{Written, to_string}
use encoder_next.Server.Audit.{append_line}
use encoder_next.Client.{Host}

-- A value, or the lines for the log of the client and the message for the user.
pub data Outcome {ℓ} (A : Type ℓ) : Type ℓ where
  fine : A → Outcome A
  failed : List Bytes → Bytes → Outcome A

infixl 5 ◌>>=◌
abbrev pub ◌>>=◌ {ℓ κ} : {A : Type ℓ} → Outcome A → {B : Type κ} → (A → Outcome B) → Outcome B
failed lines message >>= next = failed lines message
fine a >>= next = next a

abbrev pub or_fail {ℓ} : {A : Type ℓ} → Option A → Bytes → Outcome A
or_fail none message = failed [] message
or_fail (some a) message = fine a

abbrev pub from_result {ℓ} : {A : Type ℓ} → Result A → Outcome A
from_result (ok a) = fine a
from_result (err message) = failed [] (codes message)

-- One more line for the log when a step has failed, made from the message.
abbrev pub traced {ℓ} : {A : Type ℓ} → (Bytes → Bytes) → Outcome A → Outcome A
traced line (fine a) = fine a
traced line (failed lines message) = failed (lines ++ (line message ∷ [])) message

-- A line at the end of client.log, with the time before it.
abbrev pub keep_text : Option Bytes → Bytes → Map Bytes → Map Bytes
keep_text none path files = files
keep_text (some text) path files = put path text files

unfoldable pub log_client_error : Written → ℤ → Bytes → Map Bytes → Map Bytes
log_client_error w secs message files =
    let old = find (codes "client.log") files in
    keep_text (append_line w (to_string secs ++ (b' ' ∷ message)) old) (codes "client.log") files

-- The lines of a call, counted from the first.
unfoldable pub log_lines : (ℕ → Written × ℤ) → ℕ → List Bytes → Map Bytes → Map Bytes
log_lines writes n [] files = files
log_lines writes n (line ∷ lines) files =
    log_lines writes (suc n) lines (log_client_error (writes n).0 (writes n).1 line files)

abbrev pub keep_log {ℓ} : {A : Type ℓ} → Host → Outcome A × Map Bytes → Outcome A × Map Bytes
keep_log host (fine a, files) = (fine a, files)
keep_log host (failed lines message, files) =
    (failed lines message, log_lines host.log_writes 0 lines files)
