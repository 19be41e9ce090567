-- ===== src/Encoding/Bytes/Tests.antt =====
-- Numbers for common/src/bytes.cpp.
use encoder_next.Prelude.{◌≡◌, refl}
use encoder_next.Encoding.Bytes.{read_be32, write_be32}

read_back : read_be32 (write_be32 0xdeadbeef) ≡ 0xdeadbeef
unfolding read_be32 write_be32
read_back = refl
