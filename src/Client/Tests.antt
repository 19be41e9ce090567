-- ===== src/Client/Tests.antt =====
-- Runs of client/src/client_core.cpp.
use encoder_next.Prelude.{
  ◌++◌, pos, find, put, decimal, decimal_loop, ◌≡◌, refl, true, [], ◌∷◌, Bytes, codes, Map, arith,
}
use encoder_next.Crypto.Ciphers.{aes_256_gcm}
use encoder_next.Crypto.Names.{sha256}
use encoder_next.Protocol.{trim, trim_start, trim_end}
use encoder_next.Server.Context.{written, not_opened}
use encoder_next.Client.{EncryptParams, EncryptResult, Host}
use encoder_next.Client.Embedded.{write_embedded_file}
use encoder_next.Client.Outcome.{log_lines, log_client_error, fine, failed}
use encoder_next.Client.Core.{
  Peer, no_network, link_error, send_request, Writes, encrypt_data, request_encryption,
}
use encoder_next.Client.Decrypt.{source_of}
use encoder_next.Client.Reopen.{IsKept, described, source_of-write_embedded_file}
use encoder_next.Client.Untouched.{OnlyLogged, encrypt_data-failed}

abbrev params : EncryptParams
params = record {
  username = codes "eve";
  password = codes "secret";
  file_path = codes "a.txt";
  cipher = aes_256_gcm;
  hash = sha256;
  key_storage = codes "client";
}

abbrev kept : EncryptResult
kept = record {
  file_id = codes "f1";
  key_id = [];
  hash_value = codes "00ff";
  key = 1 ∷ 2 ∷ [];
  iv = 3 ∷ [];
  tag = [];
}

is_kept : IsKept kept (codes "client")
unfolding trim trim_start trim_end
is_kept = (
  (refl, refl),
  (refl, refl),
  (refl, refl),
  (refl, refl),
  (omega arith, (omega arith, tt)),
  (omega arith, tt),
  tt,
  refl,
)

source_of-write_embedded_file_example :
    source_of
      (codes "a.txt")
      (write_embedded_file written
        (codes "a.txt")
        params
        kept
        (codes "client")
        (9 ∷ 10 ∷ 10 ∷ [])
        []).1
    ≡ fine (true, described params kept (codes "client"), 9 ∷ 10 ∷ 10 ∷ [])
source_of-write_embedded_file_example =
    source_of-write_embedded_file params kept (codes "client") (codes "a.txt") (9 ∷ 10 ∷ 10 ∷ []) []
      is_kept

abbrev host : Host
host = record {
  host_label = codes "h";
  user_label = codes "u";
  home_label = codes "/";
  sha256 = λ bytes. bytes;
  log_writes = λ n. (written, pos 100);
}

abbrev silent : Peer
silent = record { link = no_network; answers = λ bytes. []; address = codes "localhost:7443" }

abbrev writes : Writes
writes = record { embedded_file = not_opened; removes_metadata = true; removes_key = true }

abbrev files : Map Bytes
files = (codes "a.txt", codes "text") ∷ []

no_answer :
    (encrypt_data silent host
      (codes "server")
      writes
      params
      (codes "a.txt")
      (codes "text")
      true
      files).0
    ≡ failed
        (codes "net_init failed" ∷ codes "encrypt request failed" ∷ [])
        (codes "Network initialization failed")
unfolding encrypt_data request_encryption send_request link_error
no_answer = refl

encrypt_data-failed_example :
    OnlyLogged files
      (encrypt_data silent host
        (codes "server")
        writes
        params
        (codes "a.txt")
        (codes "text")
        true
        files).1
encrypt_data-failed_example =
    encrypt_data-failed silent host (codes "server") writes params (codes "a.txt") (codes "text")
      true files (codes "net_init failed" ∷ codes "encrypt request failed" ∷ [])
      (codes "Network initialization failed") refl no_answer

failure_logged :
    (encrypt_data silent host
      (codes "server")
      writes
      params
      (codes "a.txt")
      (codes "text")
      true
      files).1
    ≡ files
      ++ ((
        codes "client.log",
        codes "100 net_init failed" ++ (10 ∷ codes "100 encrypt request failed" ++ (10 ∷ [])),
      )
          ∷ [])
unfolding encrypt_data request_encryption send_request link_error log_lines log_client_error find
    put decimal decimal_loop
failure_logged = refl
