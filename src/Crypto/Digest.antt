-- ===== src/Crypto/Digest.antt =====
-- `CryptoEngine::hash` of common/src/crypto.cpp, with OpenSSL as a parameter.
use encoder_next.Prelude.{
  Option, none, some, Bytes, codes, is_empty, Result, ok, ◌>>=◌, attempt, if◌then◌else◌, hex_encode,
}
use encoder_next.Crypto.Names.{HashAlg, sha256, sha512, sha3_256, sha3_512, blake2b_512, streebog}
use encoder_next.Crypto.OpenSsl.{OpenSsl}

pub record HashResult : Type 0 where
  pub bytes : Bytes
  pub hex : Bytes

module _ (ssl : OpenSsl) where
  -- The second name is tried if the first is unknown.
  abbrev pub either_digest : Option ssl.Md → Option ssl.Md → Option ssl.Md
  either_digest none second = second
  either_digest (some md) second = some md

  unfoldable pub digest_of : HashAlg → Option ssl.Md
  digest_of sha256 = some ssl.sha256_md
  digest_of sha512 = some ssl.sha512_md
  digest_of sha3_256 =
      either_digest (ssl.get_digestbyname (codes "sha3-256"))
        (ssl.get_digestbyname (codes "SHA3-256"))
  digest_of sha3_512 =
      either_digest (ssl.get_digestbyname (codes "sha3-512"))
        (ssl.get_digestbyname (codes "SHA3-512"))
  digest_of blake2b_512 =
      either_digest (ssl.get_digestbyname (codes "blake2b512"))
        (ssl.get_digestbyname (codes "BLAKE2b512"))
  digest_of streebog = some ssl.sha256_md

  abbrev pub digest_data : Bytes → ssl.MdCtx → Option ssl.MdCtx
  digest_data bytes ctx = if is_empty bytes then some ctx else ssl.digest_update bytes ctx

  unfoldable pub hash : HashAlg → Bytes → Result HashResult
  hash alg bytes = do
    md ← attempt (digest_of alg) "Digest algorithm not available"
    fresh ← attempt ssl.md_ctx_new "EVP_MD_CTX_new failed"
    started ← attempt (ssl.digest_init md fresh) "EVP_DigestInit_ex failed"
    fed ← attempt (digest_data bytes started) "EVP_DigestUpdate failed"
    out ← attempt (ssl.digest_final fed) "EVP_DigestFinal_ex failed"
    ok (record { bytes = out; hex = hex_encode out })
