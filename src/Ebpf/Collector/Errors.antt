-- ===== src/Ebpf/Collector/Errors.antt =====
-- Which errors the header half of `parse_tls_handshake` (crates/tlapix-ebpf/src/main.rs) returns.
use tlapix.Common.{Option, [], ◌∷◌, get_elem?, refl, ℕ, ◌≡◌, ◌≢◌, err, arith}
use tlapix.Ebpf.Packet.{TcContext, ctx_load_u8, ctx_load_u16, ctx_load_u32}
use tlapix.Ebpf.Collector.Headers.{
  Counters, err_ringbuf_full, increment_drop_counter, drop_idx_malformed, drop_idx_total, parse_ip,
  parse_tcp, parse_tls, parse_handshake, parse_cert,
}
use tlapix.Ebpf.Collector.Events.{locate}

module _ (ctx : TcContext) where
  parse_ip_error : (cs : Counters) {e : ℕ} → (parse_ip ctx cs).0 ≡ err e → e ≢ err_ringbuf_full
  unfolding parse_ip ctx_load_u8 ctx_load_u16 ctx_load_u32
  parse_ip_error cs h = ground arith

  parse_tcp_error :
      (o : ℕ) (cs : Counters) {e : ℕ} → (parse_tcp ctx o cs).0 ≡ err e → e ≢ err_ringbuf_full
  unfolding parse_tcp ctx_load_u8 ctx_load_u16
  parse_tcp_error o cs h = ground arith

  parse_tls_error :
      (o : ℕ) (cs : Counters) {e : ℕ} → (parse_tls ctx o cs).0 ≡ err e → e ≢ err_ringbuf_full
  unfolding parse_tls ctx_load_u8 ctx_load_u16
  parse_tls_error o cs h = ground arith

  parse_handshake_error :
      (o : ℕ) (cs : Counters) {e : ℕ} → (parse_handshake ctx o cs).0 ≡ err e → e ≢ err_ringbuf_full
  unfolding parse_handshake ctx_load_u8
  parse_handshake_error o cs h = ground arith

  parse_cert_error :
      (o : ℕ) (cs : Counters) {e : ℕ} → (parse_cert ctx o cs).0 ≡ err e → e ≢ err_ringbuf_full
  unfolding parse_cert ctx_load_u8
  parse_cert_error o cs h = ground arith

  pub locate_error : (cs : Counters) {e : ℕ} → (locate ctx cs).0 ≡ err e → e ≢ err_ringbuf_full
  unfolding locate
  locate_error cs h = grind (
    arith, parse_ip_error, parse_tcp_error, parse_tls_error, parse_handshake_error,
    parse_cert_error,
  )

-- The first drop counter, which the header half leaves alone.
abbrev pub ring_drops : Counters → Option ℕ
ring_drops cs = get_elem? cs 0

drops-malformed :
    (cs : Counters) → ring_drops (increment_drop_counter drop_idx_malformed cs) ≡ ring_drops cs
unfolding increment_drop_counter
drops-malformed [] = refl
drops-malformed (a ∷ []) = refl
drops-malformed (a ∷ b ∷ cs) = refl

drops-total :
    (cs : Counters) → ring_drops (increment_drop_counter drop_idx_total cs) ≡ ring_drops cs
unfolding increment_drop_counter
drops-total [] = refl
drops-total (a ∷ []) = refl
drops-total (a ∷ b ∷ []) = refl
drops-total (a ∷ b ∷ c ∷ cs) = refl

module _ (ctx : TcContext) where
  parse_ip-drops : (cs : Counters) → ring_drops (parse_ip ctx cs).1 ≡ ring_drops cs
  unfolding parse_ip ctx_load_u8 ctx_load_u16 ctx_load_u32
  parse_ip-drops cs = ground (arith, drops-malformed cs)

  parse_tcp-drops : (o : ℕ) (cs : Counters) → ring_drops (parse_tcp ctx o cs).1 ≡ ring_drops cs
  unfolding parse_tcp ctx_load_u8 ctx_load_u16
  parse_tcp-drops o cs = ground (arith, drops-malformed cs)

  parse_tls-drops : (o : ℕ) (cs : Counters) → ring_drops (parse_tls ctx o cs).1 ≡ ring_drops cs
  unfolding parse_tls ctx_load_u8 ctx_load_u16
  parse_tls-drops o cs = ground (arith, drops-malformed cs, drops-total cs)

  parse_handshake-drops :
      (o : ℕ) (cs : Counters) → ring_drops (parse_handshake ctx o cs).1 ≡ ring_drops cs
  unfolding parse_handshake ctx_load_u8
  parse_handshake-drops o cs = ground (arith, drops-malformed cs)

  parse_cert-drops : (o : ℕ) (cs : Counters) → ring_drops (parse_cert ctx o cs).1 ≡ ring_drops cs
  unfolding parse_cert ctx_load_u8
  parse_cert-drops o cs = ground (arith, drops-malformed cs)

  pub locate-drops : (cs : Counters) → ring_drops (locate ctx cs).1 ≡ ring_drops cs
  unfolding locate
  locate-drops cs = grind (
    arith, parse_ip-drops, parse_tcp-drops, parse_tls-drops, parse_handshake-drops,
    parse_cert-drops,
  )
