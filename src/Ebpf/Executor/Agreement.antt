-- ===== src/Ebpf/Executor/Agreement.antt =====
-- The two parsers of crates/tlapix-ebpf/src agree: where the collector reports a certificate, the
-- executor programs extract the same pseudo-fingerprint from the same packet.
use tlapix.Common.{
  ℕ, zero, suc, ◌+◌, ◌<◌, ◌≤◌, ◌≡◌, refl, List, ok, bind-ok, arith, ltb, if◌then◌else◌,
}
use tlapix.Ebpf.Packet.{TcContext}
use tlapix.Ebpf.Collector.Headers as Collector
use tlapix.Ebpf.Collector.Headers.{Counters, Ip, Tcp, Tls, Cert}
use tlapix.Ebpf.Collector.Events.{Located, locate, pseudo_fp_loop, pseudo_fingerprint}
use tlapix.Ebpf.Collector.Bounds.{copy_length_bounds}
use tlapix.Ebpf.Executor.Headers as Executor

parse_tcp_agree :
    (ctx : TcContext) (o : ℕ) (cs : Counters) {t : Tcp}
    → (Collector.parse_tcp ctx o cs).0 ≡ ok t
    → (Executor.parse_tcp ctx o ≡ ok t.tls_offset) × (o + 20 ≤ t.tls_offset)
unfolding Collector.parse_tcp Executor.parse_tcp
parse_tcp_agree ctx o cs h = ground arith

parse_tls_agree :
    (ctx : TcContext) (o : ℕ) (cs : Counters) {t : Tls}
    → (Collector.parse_tls ctx o cs).0 ≡ ok t
    → (Executor.parse_tls ctx o ≡ ok t.hs_offset) × (o + 5 ≡ t.hs_offset)
unfolding Collector.parse_tls Executor.parse_tls
parse_tls_agree ctx o cs h = ground arith

parse_handshake_agree :
    (ctx : TcContext) (o : ℕ) (cs : Counters) {p : ℕ}
    → (Collector.parse_handshake ctx o cs).0 ≡ ok p
    → (Executor.parse_handshake ctx o ≡ ok p) × (o + 4 ≡ p)
unfolding Collector.parse_handshake Executor.parse_handshake
parse_handshake_agree ctx o cs h = ground arith

parse_ip_agree :
    (ctx : TcContext) (cs : Counters) {t : Ip}
    → 70 ≤ ctx.len
    → (Collector.parse_ip ctx cs).0 ≡ ok t
    → (Executor.parse_ip ctx ≡ ok t.tcp_offset)
unfolding Collector.parse_ip Executor.parse_ip
parse_ip_agree ctx cs l h = ground arith

parse_ip-offset :
    (ctx : TcContext) (cs : Counters) {t : Ip}
    → (Collector.parse_ip ctx cs).0 ≡ ok t
    → 34 ≤ t.tcp_offset
unfolding Collector.parse_ip
parse_ip-offset ctx cs h = ground arith

fingerprint_loop_agree :
    (ctx : TcContext) (o k i : ℕ) (fp : List ℕ)
    → pseudo_fp_loop ctx o k i fp ≡ Executor.fingerprint_loop ctx o k i fp
unfolding pseudo_fp_loop Executor.fingerprint_loop
fingerprint_loop_agree ctx o zero i fp = refl
fingerprint_loop_agree ctx o (suc k) i fp = fingerprint_loop_agree ctx o k (i + 1) _

fingerprint_length_agree :
    (pkt_len der o : ℕ)
    → (if ltb (Collector.copy_length pkt_len der o) 32
        then Collector.copy_length pkt_len der o
        else 32)
      ≡ Executor.fingerprint_length pkt_len der o
unfolding Collector.copy_length Executor.fingerprint_length
fingerprint_length_agree pkt_len der o = ground arith

parse_cert_agree :
    (ctx : TcContext) (o : ℕ) (cs : Counters) {c : Cert}
    → (Collector.parse_cert ctx o cs).0 ≡ ok c
    → (Executor.parse_cert ctx o ≡ ok (pseudo_fingerprint ctx c)) × (o + 6 < ctx.len)
unfolding Collector.parse_cert Executor.parse_cert pseudo_fingerprint
parse_cert_agree ctx o cs {c} h =
    grind (arith, fingerprint_loop_agree, fingerprint_length_agree, copy_length_bounds)

extract_of_parts :
    (ctx : TcContext) {a b c d : ℕ} {fp : List ℕ}
    → Executor.parse_ip ctx ≡ ok a
    → Executor.parse_tcp ctx a ≡ ok b
    → Executor.parse_tls ctx b ≡ ok c
    → Executor.parse_handshake ctx c ≡ ok d
    → Executor.parse_cert ctx d ≡ ok fp
    → Executor.extract_cert_fingerprint ctx ≡ ok fp
unfolding Executor.extract_cert_fingerprint
extract_of_parts ctx h1 h2 h3 h4 h5 = ground arith

agree_of_parts :
    (ctx : TcContext) (cs cs1 cs2 cs3 cs4 : Counters) {ip : Ip} {tcp : Tcp} {tls : Tls} {o : ℕ}
    {c : Cert}
    → (Collector.parse_ip ctx cs).0 ≡ ok ip
    → (Collector.parse_tcp ctx ip.tcp_offset cs1).0 ≡ ok tcp
    → (Collector.parse_tls ctx tcp.tls_offset cs2).0 ≡ ok tls
    → (Collector.parse_handshake ctx tls.hs_offset cs3).0 ≡ ok o
    → (Collector.parse_cert ctx o cs4).0 ≡ ok c
    → Executor.extract_cert_fingerprint ctx ≡ ok (pseudo_fingerprint ctx c)
agree_of_parts ctx cs cs1 cs2 cs3 cs4 {ip} {tcp} {tls} {o} {c} h1 h2 h3 h4 h5 =
    let (t, le2) = parse_tcp_agree ctx ip.tcp_offset cs1 h2 in
    let (s, le3) = parse_tls_agree ctx tcp.tls_offset cs2 h3 in
    let (m, le4) = parse_handshake_agree ctx tls.hs_offset cs3 h4 in
    let (r, le5) = parse_cert_agree ctx o cs4 h5 in
    extract_of_parts ctx (parse_ip_agree ctx cs (omega (arith, parse_ip-offset ctx cs h1)) h1) t s m
      r

pub locate_agree :
    (ctx : TcContext) (cs : Counters) {l : Located}
    → (locate ctx cs).0 ≡ ok l
    → Executor.extract_cert_fingerprint ctx ≡ ok (pseudo_fingerprint ctx l.cert)
unfolding locate
locate_agree ctx cs {l} h =
    let (ip, e1, h1) = bind-ok (Collector.parse_ip ctx) _ cs h in
    let (tcp, e2, h2) = bind-ok (Collector.parse_tcp ctx ip.tcp_offset) _ _ h1 in
    let (tls, e3, h3) = bind-ok (Collector.parse_tls ctx tcp.tls_offset) _ _ h2 in
    let (o, e4, h4) = bind-ok (Collector.parse_handshake ctx tls.hs_offset) _ _ h3 in
    let (c, e5, h5) = bind-ok (Collector.parse_cert ctx o) _ _ h4 in
    let e : l.cert ≡ c = cc in rw e (agree_of_parts ctx _ _ _ _ _ e1 e2 e3 e4 e5)
