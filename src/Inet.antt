-- ===== src/Inet.antt =====
-- src/inet.c: the byte order of the network. The processor is little-endian.
pub mod Order
pub mod Text
use nucleo_tests.Base.{ℕ}
use nucleo_tests.Base.Bytes.{bswap32, bswap16}

unfoldable pub htonl : ℕ → ℕ
htonl hostlong = bswap32 hostlong

unfoldable pub htons : ℕ → ℕ
htons hostshort = bswap16 hostshort

unfoldable pub ntohl : ℕ → ℕ
ntohl netlong = bswap32 netlong

unfoldable pub ntohs : ℕ → ℕ
ntohs netshort = bswap16 netshort
