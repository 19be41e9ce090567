-- ===== src/Server/Encrypt.antt =====
-- `handle_encrypt` of server/src/main.cpp. An answer is its header and the bytes behind it; that the
-- client may not take them, and zeroing the buffers, is left out.
use encoder_next.Prelude.{
  ℕ, Bool, true, false, not, ◌||◌, Option, none, some, [], ◌++◌, Bytes, codes, bytes_eq, length,
  is_empty, take, leb, decimal, if◌then◌else◌, hex_encode, Result, ok, err,
}
use encoder_next.Encoding.Base64.{base64_encode}
use encoder_next.Monitor.Store.{record_file_op}
use encoder_next.Protocol.{Header, get, set}
use encoder_next.Crypto.Names.{HashAlg, streebog, cipher_from_string, hash_from_string}
use encoder_next.Crypto.Digest.{HashResult, hash}
use encoder_next.Crypto.Gost.{CryptoResult}
use encoder_next.Crypto.Engine.{encrypt}
use encoder_next.Server.Context.{
  ServerContext, Env, Setup, Step, event, ◌>>=◌, ◌>>◌, answer, refuse, reads, or_refuse, insist,
  change, note,
}
use encoder_next.Server.Keys.{key_blob, write_file, key_path, hash_path, hash_payload}
use encoder_next.Server.Access.{user_of, monitor_call, may_encrypt, admit}

-- An error of the engine behind its heading.
abbrev pub engine {ℓ} : {A : Type ℓ} → Result A → Bytes → Step A
engine (ok a) heading = answer a
engine (err message) heading = refuse (heading ++ codes message)

-- `read_exact` of a number of bytes.
abbrev pub read_exact : ℕ → Bytes → Option Bytes
read_exact size stream = if leb size (length stream) then some (take size stream) else none

abbrev pub is_streebog : HashAlg → Bool
is_streebog streebog = true
is_streebog _ = false

-- A header field that is there only under a condition.
abbrev pub set_if : Bool → Bytes → Bytes → Header → Header
set_if true name value header = set name value header
set_if false name value header = header

abbrev pub encrypt_denied : Bytes
encrypt_denied = codes "Encryption is not allowed for this account"

module _ (setup : Setup) (env : Env) where
  -- The key goes to a file under a random name if the server keeps it; the name is empty otherwise.
  unfoldable pub keep_key : Bool → CryptoResult → Step Bytes
  keep_key false r = answer []
  keep_key true r = do
    let key_id = hex_encode env.key_name
    let blob = key_blob (record { key = r.key; iv = r.iv; tag = r.tag })
    stored ← reads (λ ctx. write_file env.key_written (key_path setup key_id) blob ctx.files)
    change (λ ctx. record ctx { files = stored.1 })
    insist stored.0 (codes "Failed to store key")
    answer key_id

  -- The record of the digest; whether it could be written is not looked at.
  unfoldable pub keep_digest : Bytes → ServerContext → ServerContext
  keep_digest payload ctx = record ctx {
    files =
        (write_file env.hash_written (hash_path setup (hex_encode env.file_name)) payload
          ctx.files).1;
  }

  abbrev pub encrypt_header : Header → Bytes → Bool → CryptoResult → HashResult → Header
  encrypt_header req key_id to_client r digest =
      set_if (not (is_empty r.tag)) (codes "tag") (base64_encode r.tag) (
        set_if (not (is_empty r.iv)) (codes "iv") (base64_encode r.iv) (
          set_if to_client (codes "key") (base64_encode r.key) (
            set_if (not (is_empty key_id)) (codes "key_id") key_id (
              set (codes "enc_size") (decimal (length r.content)) (
                set (codes "hash_value") digest.hex (
                  set (codes "file_id") (hex_encode env.file_name) (
                    set (codes "hash") (get (codes "hash") [] req) (
                      set (codes "cipher") (get (codes "cipher") [] req)
                        (set (codes "status") (codes "ok") [])))))))))

  abbrev pub file_op : Bytes → Bytes → ℕ → ServerContext → ServerContext
  file_op username op bytes ctx =
      monitor_call
        (record_file_op setup.monitor_config username env.worked_at op 1 bytes ctx.monitor) ctx

  abbrev pub encrypt_detail : Header → ℕ → CryptoResult → Bytes
  encrypt_detail req file_size r =
      codes "file="
      ++ get (codes "file_name") [] req
      ++ codes " file_size="
      ++ decimal file_size
      ++ codes " enc_size="
      ++ decimal (length r.content)
      ++ codes " cipher="
      ++ get (codes "cipher") [] req

  -- What is left once the client is admitted.
  unfoldable pub encrypt_admitted : Header → ℕ → Step (Header × Bytes)
  encrypt_admitted req file_size = do
    cipher ← or_refuse (cipher_from_string (get (codes "cipher") [] req)) (codes "Unknown cipher")
    alg ← or_refuse (hash_from_string (get (codes "hash") [] req)) (codes "Unknown hash algorithm")
    insist (not (is_streebog alg))
        (codes "Legacy streebog label is not supported for new encryption; select SHA-256")
    plaintext ← or_refuse (read_exact file_size env.stream) (codes "Failed to read file")
    digest ← engine (hash setup.ssl alg plaintext) (codes "Hash failed: ")
    r ←
        engine (encrypt setup.native setup.ssl setup.ak cipher plaintext env.rand_key env.rand_iv)
          (codes "Encrypt failed: ")
    let storage = get (codes "key_storage") (codes "server") req
    insist (bytes_eq storage (codes "server") || bytes_eq storage (codes "client"))
        (codes "Invalid key_storage")
    key_id ← keep_key (bytes_eq storage (codes "server")) r
    change (
        keep_digest
          (hash_payload (get (codes "hash") [] req) digest.hex (get (codes "file_name") [] req)))
    change (file_op (user_of req) (codes "encrypt") file_size)
    note (event (codes "encrypt") (user_of req) (encrypt_detail req file_size r))
    answer (encrypt_header req key_id (bytes_eq storage (codes "client")) r digest, r.content)

  unfoldable pub handle_encrypt : Header → Step (Header × Bytes)
  handle_encrypt req = do
    file_size ← admit setup env req (codes "encrypt") may_encrypt encrypt_denied
    encrypt_admitted req file_size
