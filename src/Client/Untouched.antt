-- ===== src/Client/Untouched.antt =====
-- What client/src/client_core.cpp leaves of the user's files when an encryption fails.
use encoder_next.Prelude.{
  ℕ, suc, ◌≡◌, ◌≢◌, refl, sym, ap, ◌∙◌, Bool, true, false, Option, none, some, List, [], ◌∷◌, ◌++◌,
  append-nil, append_assoc, Bytes, codes, Map, find, put, find-put_same, find-put_other, ℤ, Result,
  ok, err,
}
use encoder_next.Server.Context.{Written, is_whole, written, not_opened, cut_short}
use encoder_next.Server.Audit.{contents, append_line}
use encoder_next.Server.Keys.{write_file}
use encoder_next.Protocol.{Header}
use encoder_next.Client.{EncryptParams, EncryptResult, Host}
use encoder_next.Client.Embedded.{write_header_and_data, write_embedded_file, embedded_header}
use encoder_next.Client.Outcome.{
  Outcome, fine, failed, keep_text, log_client_error, log_lines, keep_log,
}
use encoder_next.Client.Core.{
  Peer, Writes, keep_encrypted, tidy, encrypt_data, request_encryption, chosen_storage, only_result,
}

tidy_failed :
    (w : Writes) (v : Written) (path : Bytes) (r : EncryptResult) (enc_data : Bytes)
    (h : Result Header) (files : Map Bytes) {lines : List Bytes} {message : Bytes}
    → is_whole v ≡ true
    → (tidy w path r (write_header_and_data v path enc_data h files)).0 ≡ failed lines message
    → (tidy w path r (write_header_and_data v path enc_data h files)).1 ≡ files
unfolding write_file
tidy_failed w v path r enc_data (err e) files whole h = refl
tidy_failed w written path r enc_data (ok header) files whole h = absurd (cc h)
tidy_failed w not_opened path r enc_data (ok header) files whole h = refl
tidy_failed w (cut_short part) path r enc_data (ok header) files whole h = absurd (cc whole)

keep_encrypted_failed :
    (w : Writes) (params : EncryptParams) (key_storage : Bytes)
    (reply : Outcome (EncryptResult × Bytes)) (files : Map Bytes) {lines : List Bytes}
    {message : Bytes}
    → is_whole w.embedded_file ≡ true
    → (keep_encrypted w params key_storage reply files).0 ≡ failed lines message
    → (keep_encrypted w params key_storage reply files).1 ≡ files
unfolding write_embedded_file
keep_encrypted_failed w params key_storage (failed e f) files whole h = refl
keep_encrypted_failed w params key_storage (fine (r, enc_data)) files whole h =
    tidy_failed w w.embedded_file params.file_path r enc_data (embedded_header params r key_storage)
      files whole h

-- All but the log is as before, and the log has at most grown at its end.
abbrev pub OnlyLogged : Map Bytes → Map Bytes → Type 0
OnlyLogged before after =
    ((path : Bytes) → path ≢ codes "client.log" → find path after ≡ find path before)
    × (more : Bytes) × (contents (find (codes "client.log") after)
        ≡ contents (find (codes "client.log") before) ++ more)

OnlyLogged-refl : (files : Map Bytes) → OnlyLogged files files
OnlyLogged-refl files = ((λ path other. refl), [], sym (append-nil _))

OnlyLogged-trans : (a b c : Map Bytes) → OnlyLogged a b → OnlyLogged b c → OnlyLogged a c
OnlyLogged-trans a b c (same, more, grown) (same₂, more₂, grown₂) = (
  (λ path other. same₂ path other ∙ same path other),
  more ++ more₂,
  grown₂ ∙ ap (λ t. t ++ more₂) grown ∙ append_assoc _ more more₂,
)

OnlyLogged-put :
    (files : Map Bytes) (text more : Bytes)
    → text ≡ contents (find (codes "client.log") files) ++ more
    → OnlyLogged files (put (codes "client.log") text files)
OnlyLogged-put files text more e = (
  (λ path other. find-put_other (codes "client.log") path text files other),
  more,
  ap contents (find-put_same (codes "client.log") text files) ∙ e,
)

OnlyLogged-keep_text :
    (w : Written) (line : Bytes) (old : Option Bytes) (files : Map Bytes)
    → find (codes "client.log") files ≡ old
    → OnlyLogged files (keep_text (append_line w line old) (codes "client.log") files)
OnlyLogged-keep_text written line old files e =
    OnlyLogged-put files _ (line ++ (10 ∷ [])) (rw e refl)
OnlyLogged-keep_text not_opened line none files e = OnlyLogged-refl files
OnlyLogged-keep_text not_opened line (some text) files e =
    OnlyLogged-put files text [] (rw e (sym (append-nil text)))
OnlyLogged-keep_text (cut_short part) line old files e = OnlyLogged-put files _ part (rw e refl)

OnlyLogged-log_lines :
    (writes : ℕ → Written × ℤ) (n : ℕ) (lines : List Bytes) (files : Map Bytes)
    → OnlyLogged files (log_lines writes n lines files)
unfolding log_lines log_client_error
OnlyLogged-log_lines writes n [] files = OnlyLogged-refl files
OnlyLogged-log_lines writes n (line ∷ lines) files =
    let next = log_client_error (writes n).0 (writes n).1 line files in
    OnlyLogged-trans files next (log_lines writes (suc n) lines next)
      (OnlyLogged-keep_text (writes n).0 _ (find (codes "client.log") files) files refl)
      (OnlyLogged-log_lines writes (suc n) lines next)

OnlyLogged-keep_log :
    (host : Host) (r : Outcome EncryptResult × Map Bytes) (files : Map Bytes) {lines : List Bytes}
    {message : Bytes}
    → (r.0 ≡ failed lines message → r.1 ≡ files)
    → (keep_log host r).0 ≡ failed lines message
    → OnlyLogged files (keep_log host r).1
OnlyLogged-keep_log host (fine a, after) files same h = absurd (cc h)
OnlyLogged-keep_log host (failed ls m, after) files same h =
    rw (← same h) (OnlyLogged-log_lines host.log_writes 0 ls after)

-- An encryption that fails leaves every file but client.log as it was, and of client.log all that
-- stood in it, behind which at most something is added: however it fails, in the connection, in what
-- the server answers, for a missing key or for a file that cannot be opened for writing, and whatever
-- comes of writing the log. Only a write of the encrypted file that is cut short is left out.
pub encrypt_data-failed :
    (peer : Peer) (host : Host) (default : Bytes) (w : Writes) (params : EncryptParams)
    (file_name data' : Bytes) (write_to_disk : Bool) (files : Map Bytes) (lines : List Bytes)
    (message : Bytes)
    → is_whole w.embedded_file ≡ true
    → (encrypt_data peer host default w params file_name data' write_to_disk files).0
      ≡ failed lines message
    → OnlyLogged files
        (encrypt_data peer host default w params file_name data' write_to_disk files).1
unfolding encrypt_data
encrypt_data-failed peer host default w params file_name data' false files lines message whole h =
    let key_storage = chosen_storage default params in
    OnlyLogged-keep_log host
      (only_result (request_encryption peer host params key_storage file_name data'), files) files
      (λ e. refl) h
encrypt_data-failed peer host default w params file_name data' true files lines message whole h =
    let key_storage = chosen_storage default params in
    let reply = request_encryption peer host params key_storage file_name data' in
    OnlyLogged-keep_log host (keep_encrypted w params key_storage reply files) files
      (keep_encrypted_failed w params key_storage reply files whole) h
