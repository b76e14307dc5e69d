-- ===== src/Ebpf/Collector/Headers.antt =====
-- The first half of `parse_tls_handshake`: from the Ethernet header to the leaf certificate. The
-- state is the array `DROP_COUNTER`, the only map that this half writes.
use tlapix.Common.{
  ℕ, ◌+◌, ◌-◌, ◌*◌, ◌/◌, ◌%◌, ◌^◌, Bool, ◌||◌, none, some, List, get_elem?, set, ltb, ◌==◌, not,
  if◌then◌else◌, ok, Exec, ◌>>=◌, ◌>>◌, pure, raise, lift,
}
use tlapix.Ebpf.Packet.{
  TcContext, ctx_load_u8, ctx_load_u16, ctx_load_u32, from_be16, from_be32, be24, eth_hdr_len,
  eth_p_ip, ipproto_tcp, tls_content_type_handshake, tls_handshake_certificate,
  tls_handshake_server_hello,
}

abbrev pub max_cert_data : ℕ
max_cert_data = 4096

abbrev pub err_pkt_too_short : ℕ
err_pkt_too_short = 1

abbrev pub err_not_ipv4 : ℕ
err_not_ipv4 = 2

abbrev pub err_not_tcp : ℕ
err_not_tcp = 3

abbrev pub err_not_tls : ℕ
err_not_tls = 4

abbrev pub err_not_handshake : ℕ
err_not_handshake = 5

abbrev pub err_ringbuf_full : ℕ
err_ringbuf_full = 6

abbrev pub drop_idx_ring_full : ℕ
drop_idx_ring_full = 0

abbrev pub drop_idx_malformed : ℕ
drop_idx_malformed = 1

abbrev pub drop_idx_total : ℕ
drop_idx_total = 2

abbrev pub Counters : Type 0
Counters = List ℕ

-- A counter is a u64, and its increment wraps.
unfoldable pub increment_drop_counter : ℕ → Counters → Counters
increment_drop_counter index cs = elim (get_elem? cs index) [
  | none ↦ cs
  | some n ↦ set cs index ((n + 1) % 2 ^ 64)
]

abbrev pub count : ℕ → Exec Counters ℕ (Unit {0})
count index cs = (ok tt, increment_drop_counter index cs)

abbrev pub guard_not : Bool → ℕ → Exec Counters ℕ (Unit {0})
guard_not bad e = if bad then raise e else pure tt

-- A test that also counts the packet as malformed.
abbrev pub guard_malformed : Bool → ℕ → Exec Counters ℕ (Unit {0})
guard_malformed bad e = if bad then (do count drop_idx_malformed; raise e) else pure tt

pub record Ip : Type 0 where
  pub src_ip : ℕ
  pub dst_ip : ℕ
  pub tcp_offset : ℕ

unfoldable pub parse_ip : TcContext → Exec Counters ℕ Ip
parse_ip ctx = do
  guard_not (ltb ctx.len (eth_hdr_len + 20 + 20 + 5)) err_pkt_too_short
  eth_proto ← lift (ctx_load_u16 ctx 12)
  guard_not (not (from_be16 eth_proto == eth_p_ip)) err_not_ipv4
  ip_version_ihl ← lift (ctx_load_u8 ctx eth_hdr_len)
  let ip_ihl = ip_version_ihl % 16 * 4
  guard_malformed (ltb ip_ihl 20 || ltb 60 ip_ihl) err_not_ipv4
  ip_protocol ← lift (ctx_load_u8 ctx (eth_hdr_len + 9))
  guard_not (not (ip_protocol == ipproto_tcp)) err_not_tcp
  src ← lift (ctx_load_u32 ctx (eth_hdr_len + 12))
  dst ← lift (ctx_load_u32 ctx (eth_hdr_len + 16))
  pure
      (record { src_ip = from_be32 src; dst_ip = from_be32 dst; tcp_offset = eth_hdr_len + ip_ihl })

pub record Tcp : Type 0 where
  pub src_port : ℕ
  pub dst_port : ℕ
  pub tls_offset : ℕ

unfoldable pub parse_tcp : TcContext → ℕ → Exec Counters ℕ Tcp
parse_tcp ctx tcp_offset = do
  guard_not (ltb ctx.len (tcp_offset + 20)) err_pkt_too_short
  src ← lift (ctx_load_u16 ctx tcp_offset)
  dst ← lift (ctx_load_u16 ctx (tcp_offset + 2))
  data_offset ← lift (ctx_load_u8 ctx (tcp_offset + 12))
  let tcp_hdr_len = data_offset / 16 % 16 * 4
  guard_malformed (ltb tcp_hdr_len 20 || ltb 60 tcp_hdr_len) err_not_tcp
  pure (record {
    src_port = from_be16 src;
    dst_port = from_be16 dst;
    tls_offset = tcp_offset + tcp_hdr_len;
  })

pub record Tls : Type 0 where
  pub tls_version : ℕ
  pub hs_offset : ℕ

unfoldable pub parse_tls : TcContext → ℕ → Exec Counters ℕ Tls
parse_tls ctx tls_offset = do
  guard_not (ltb ctx.len (tls_offset + 5)) err_not_tls
  content_type ← lift (ctx_load_u8 ctx tls_offset)
  guard_not (not (content_type == tls_content_type_handshake)) err_not_tls
  version ← lift (ctx_load_u16 ctx (tls_offset + 1))
  record_len ← lift (ctx_load_u16 ctx (tls_offset + 3))
  guard_malformed (from_be16 record_len == 0 || ltb 16384 (from_be16 record_len)) err_not_tls
  count drop_idx_total
  pure (record { tls_version = from_be16 version; hs_offset = tls_offset + 5 })

-- The offset of the Certificate message.
unfoldable pub parse_handshake : TcContext → ℕ → Exec Counters ℕ ℕ
parse_handshake ctx hs_offset = do
  guard_not (ltb ctx.len (hs_offset + 4)) err_not_handshake
  hs_type ← lift (ctx_load_u8 ctx hs_offset)
  guard_not (hs_type == tls_handshake_server_hello) err_not_handshake
  guard_not (not (hs_type == tls_handshake_certificate)) err_not_handshake
  pure (hs_offset + 4)

pub record Cert : Type 0 where
  pub certs_total_len : ℕ
  pub first_cert_offset : ℕ
  pub cert_der_len : ℕ
  pub copy_len : ℕ

-- How many bytes of the leaf certificate are copied: bounded by its length, the buffer, the packet.
unfoldable pub copy_length : ℕ → ℕ → ℕ → ℕ
copy_length pkt_len cert_der_len cert_data_offset =
    let available = if ltb cert_data_offset pkt_len then pkt_len - cert_data_offset else 0 in
    let wanted = if ltb max_cert_data cert_der_len then max_cert_data else cert_der_len in
    if ltb available wanted then available else wanted

unfoldable pub parse_cert : TcContext → ℕ → Exec Counters ℕ Cert
parse_cert ctx cert_msg_offset = do
  guard_not (ltb ctx.len (cert_msg_offset + 3)) err_not_handshake
  t0 ← lift (ctx_load_u8 ctx cert_msg_offset)
  t1 ← lift (ctx_load_u8 ctx (cert_msg_offset + 1))
  t2 ← lift (ctx_load_u8 ctx (cert_msg_offset + 2))
  let first_cert_offset = cert_msg_offset + 3
  guard_not (ltb ctx.len (first_cert_offset + 3)) err_not_handshake
  b0 ← lift (ctx_load_u8 ctx first_cert_offset)
  b1 ← lift (ctx_load_u8 ctx (first_cert_offset + 1))
  b2 ← lift (ctx_load_u8 ctx (first_cert_offset + 2))
  let cert_der_len = be24 b0 b1 b2
  guard_malformed (cert_der_len == 0 || ltb 65535 cert_der_len) err_not_handshake
  let copy_len = copy_length ctx.len cert_der_len (first_cert_offset + 3)
  guard_not (copy_len == 0) err_not_handshake
  pure (record {
    certs_total_len = be24 t0 t1 t2;
    first_cert_offset = first_cert_offset;
    cert_der_len = cert_der_len;
    copy_len = copy_len;
  })
