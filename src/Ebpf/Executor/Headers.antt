-- ===== src/Ebpf/Executor/Headers.antt =====
-- `extract_cert_fingerprint` of crates/tlapix-ebpf/src/executor.rs: the pseudo-fingerprint of the
-- leaf certificate, which is the first 32 bytes of its DER form.
use tlapix.Common.{
  ℕ, zero, suc, ◌+◌, ◌-◌, ◌*◌, ◌/◌, ◌%◌, ◌||◌, not, List, ltb, ◌==◌, if◌then◌else◌, Result, ok, err,
  set, replicate,
}
use tlapix.Common.Attempt.{◌>>=◌, ◌>>◌, guard_not}
use tlapix.Ebpf.Packet.{
  TcContext, ctx_load_u8, ctx_load_u16, from_be16, be24, eth_hdr_len, eth_p_ip, ipproto_tcp,
  tls_content_type_handshake, tls_handshake_certificate,
}

abbrev pub err_pkt_too_short : ℕ
err_pkt_too_short = 1

abbrev pub err_not_ipv4 : ℕ
err_not_ipv4 = 2

abbrev pub err_not_tcp : ℕ
err_not_tcp = 3

abbrev pub err_not_tls : ℕ
err_not_tls = 4

abbrev pub err_not_certificate : ℕ
err_not_certificate = 5

-- The offset of the TCP header.
unfoldable pub parse_ip : TcContext → Result ℕ ℕ
parse_ip ctx = do
  guard_not (ltb ctx.len (eth_hdr_len + 20 + 20 + 5 + 4 + 3 + 3 + 1)) err_pkt_too_short
  eth_proto ← ctx_load_u16 ctx 12
  guard_not (not (from_be16 eth_proto == eth_p_ip)) err_not_ipv4
  ip_version_ihl ← ctx_load_u8 ctx eth_hdr_len
  let ip_ihl = ip_version_ihl % 16 * 4
  guard_not (ltb ip_ihl 20 || ltb 60 ip_ihl) err_not_ipv4
  ip_protocol ← ctx_load_u8 ctx (eth_hdr_len + 9)
  guard_not (not (ip_protocol == ipproto_tcp)) err_not_tcp
  ok (eth_hdr_len + ip_ihl)

-- The offset of the TLS record.
unfoldable pub parse_tcp : TcContext → ℕ → Result ℕ ℕ
parse_tcp ctx tcp_offset = do
  guard_not (ltb ctx.len (tcp_offset + 20)) err_pkt_too_short
  data_offset ← ctx_load_u8 ctx (tcp_offset + 12)
  let tcp_hdr_len = data_offset / 16 % 16 * 4
  guard_not (ltb tcp_hdr_len 20 || ltb 60 tcp_hdr_len) err_not_tcp
  ok (tcp_offset + tcp_hdr_len)

-- The offset of the handshake message.
unfoldable pub parse_tls : TcContext → ℕ → Result ℕ ℕ
parse_tls ctx tls_offset = do
  guard_not (ltb ctx.len (tls_offset + 5)) err_not_tls
  content_type ← ctx_load_u8 ctx tls_offset
  guard_not (not (content_type == tls_content_type_handshake)) err_not_tls
  record_len ← ctx_load_u16 ctx (tls_offset + 3)
  guard_not (from_be16 record_len == 0 || ltb 16384 (from_be16 record_len)) err_not_tls
  ok (tls_offset + 5)

-- The offset of the Certificate message.
unfoldable pub parse_handshake : TcContext → ℕ → Result ℕ ℕ
parse_handshake ctx hs_offset = do
  guard_not (ltb ctx.len (hs_offset + 4)) err_not_certificate
  hs_type ← ctx_load_u8 ctx hs_offset
  guard_not (not (hs_type == tls_handshake_certificate)) err_not_certificate
  ok (hs_offset + 4)

-- The loop over the first bytes: `k` rounds are left, and a byte that cannot be read stays as it was.
unfoldable pub fingerprint_loop : TcContext → ℕ → ℕ → ℕ → List ℕ → List ℕ
fingerprint_loop ctx offset zero i fingerprint = fingerprint
fingerprint_loop ctx offset (suc k) i fingerprint =
    fingerprint_loop ctx offset k (i + 1)
      (elim (ctx_load_u8 ctx (offset + i)) [ ok b ↦ set fingerprint i b | err _ ↦ fingerprint ])

unfoldable pub fingerprint_length : ℕ → ℕ → ℕ → ℕ
fingerprint_length pkt_len cert_der_len cert_data_offset =
    let available = if ltb cert_data_offset pkt_len then pkt_len - cert_data_offset else 0 in
    let wanted = if ltb cert_der_len 32 then cert_der_len else 32 in
    if ltb available wanted then available else wanted

unfoldable pub parse_cert : TcContext → ℕ → Result ℕ (List ℕ)
parse_cert ctx cert_msg_offset = do
  guard_not (ltb ctx.len (cert_msg_offset + 3)) err_not_certificate
  let first_cert_offset = cert_msg_offset + 3
  guard_not (ltb ctx.len (first_cert_offset + 3)) err_not_certificate
  b0 ← ctx_load_u8 ctx first_cert_offset
  b1 ← ctx_load_u8 ctx (first_cert_offset + 1)
  b2 ← ctx_load_u8 ctx (first_cert_offset + 2)
  guard_not (be24 b0 b1 b2 == 0) err_not_certificate
  let fp_len = fingerprint_length ctx.len (be24 b0 b1 b2) (first_cert_offset + 3)
  guard_not (fp_len == 0) err_not_certificate
  ok (fingerprint_loop ctx (first_cert_offset + 3) fp_len 0 (replicate 32 0))

unfoldable pub extract_cert_fingerprint : TcContext → Result ℕ (List ℕ)
extract_cert_fingerprint ctx = do
  tcp_offset ← parse_ip ctx
  tls_offset ← parse_tcp ctx tcp_offset
  hs_offset ← parse_tls ctx tls_offset
  cert_msg_offset ← parse_handshake ctx hs_offset
  parse_cert ctx cert_msg_offset
