-- ===== src/Ebpf/Packet.antt =====
-- Access to packet data (crates/tlapix-ebpf/src/main.rs) and the constants of the protocols.
-- `TcContext` belongs to the eBPF runtime: its length and its loads are parameters.
use tlapix.Common.{ℕ, ◌+◌, ◌*◌, ◌/◌, ◌%◌, Option, none, some, Result, ok, err}

pub record TcContext : Type 0 where
  pub len : ℕ
  pub load_u8 : ℕ → Option ℕ
  pub load_u16 : ℕ → Option ℕ
  pub load_u32 : ℕ → Option ℕ

abbrev pub eth_hdr_len : ℕ
eth_hdr_len = 14

abbrev pub eth_p_ip : ℕ
eth_p_ip = 0x0800

abbrev pub ipproto_tcp : ℕ
ipproto_tcp = 6

abbrev pub tls_content_type_handshake : ℕ
tls_content_type_handshake = 0x16

abbrev pub tls_handshake_certificate : ℕ
tls_handshake_certificate = 11

abbrev pub tls_handshake_server_hello : ℕ
tls_handshake_server_hello = 2

abbrev pub tc_act_ok : ℕ
tc_act_ok = 0

abbrev pub tc_act_shot : ℕ
tc_act_shot = 2

abbrev pub err_read_failed : ℕ
err_read_failed = 7

-- `.map_err(|_| ERR_READ_FAILED)`
abbrev or_read_failed : Option ℕ → Result ℕ ℕ
or_read_failed none = err err_read_failed
or_read_failed (some x) = ok x

unfoldable pub ctx_load_u8 : TcContext → ℕ → Result ℕ ℕ
ctx_load_u8 ctx offset = or_read_failed (ctx.load_u8 offset)

unfoldable pub ctx_load_u16 : TcContext → ℕ → Result ℕ ℕ
ctx_load_u16 ctx offset = or_read_failed (ctx.load_u16 offset)

unfoldable pub ctx_load_u32 : TcContext → ℕ → Result ℕ ℕ
ctx_load_u32 ctx offset = or_read_failed (ctx.load_u32 offset)

-- `u16::from_be` and `u32::from_be` on the little-endian target bpfel.
unfoldable pub from_be16 : ℕ → ℕ
from_be16 x = x % 256 * 256 + x / 256 % 256

unfoldable pub from_be32 : ℕ → ℕ
from_be32 x =
    x % 256 * 16777216 + x / 256 % 256 * 65536 + x / 65536 % 256 * 256 + x / 16777216 % 256

-- `(b0 << 16) | (b1 << 8) | b2`, the bits being apart since each `b` is a byte.
unfoldable pub be24 : ℕ → ℕ → ℕ → ℕ
be24 b0 b1 b2 = b0 * 65536 + b1 * 256 + b2
