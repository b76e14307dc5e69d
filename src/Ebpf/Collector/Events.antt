-- ===== src/Ebpf/Collector/Events.antt =====
-- The second half of `parse_tls_handshake` of crates/tlapix-ebpf/src/main.rs, which fills and
-- submits the event, and the two classifiers.
use tlapix.Common.{
  ℕ, zero, suc, ◌+◌, List, set, replicate, ltb, if◌then◌else◌, ok, err, ◌>>=◌, Exec,
}
use tlapix.Ebpf.Packet.{TcContext, ctx_load_u8, tc_act_ok}
use tlapix.Ebpf.Maps.{Fingerprint, BpfMap, RingBuf, is_new_cert}
use tlapix.Ebpf.Collector.Headers.{
  Counters, Ip, Tcp, Tls, Cert, max_cert_data, err_ringbuf_full, drop_idx_ring_full,
  increment_drop_counter, parse_ip, parse_tcp, parse_tls, parse_handshake, parse_cert,
}
use tlapix.Ebpf.Collector.Chain.{count_chain_depth, copy_cert_data, extract_issuer_pseudo_fp}

abbrev pub max_sni_len : ℕ
max_sni_len = 256

pub record TlsCertEvent : Type 0 where
  pub timestamp_ns : ℕ
  pub src_ip : ℕ
  pub dst_ip : ℕ
  pub src_port : ℕ
  pub dst_port : ℕ
  pub ip_version : ℕ
  pub tls_version : ℕ
  pub sni_len : ℕ
  pub sni : List ℕ
  pub fingerprint : Fingerprint
  pub cert_len : ℕ
  pub cert_data : List ℕ
  pub chain_depth : ℕ
  pub issuer_fingerprint : Fingerprint
  pub is_new : ℕ

-- What the header half finds.
pub record Located : Type 0 where
  pub ip : Ip
  pub tcp : Tcp
  pub tls : Tls
  pub cert_msg_offset : ℕ
  pub cert : Cert

unfoldable pub locate : TcContext → Exec Counters ℕ Located
locate ctx = do
  ip ← parse_ip ctx
  tcp ← parse_tcp ctx ip.tcp_offset
  tls ← parse_tls ctx tcp.tls_offset
  cert_msg_offset ← parse_handshake ctx tls.hs_offset
  cert ← parse_cert ctx cert_msg_offset
  λ cs. (
    ok (record { ip = ip; tcp = tcp; tls = tls; cert_msg_offset = cert_msg_offset; cert = cert }),
    cs,
  )

-- The loop that reads the pseudo-fingerprint; `k` rounds are left.
unfoldable pub pseudo_fp_loop : TcContext → ℕ → ℕ → ℕ → List ℕ → List ℕ
pseudo_fp_loop ctx offset zero i pseudo_fp = pseudo_fp
pseudo_fp_loop ctx offset (suc k) i pseudo_fp =
    pseudo_fp_loop ctx offset k (i + 1)
      (elim (ctx_load_u8 ctx (offset + i)) [ ok b ↦ set pseudo_fp i b | err _ ↦ pseudo_fp ])

unfoldable pub pseudo_fingerprint : TcContext → Cert → Fingerprint
pseudo_fingerprint ctx c =
    pseudo_fp_loop ctx (c.first_cert_offset + 3) (if ltb c.copy_len 32 then c.copy_len else 32) 0
      (replicate 32 0)

-- The event that is written into the reserved slot.
unfoldable pub fill_event : TcContext → Located → ℕ → ℕ → TlsCertEvent
fill_event ctx l timestamp_ns is_new = record {
  timestamp_ns = timestamp_ns;
  src_ip = l.ip.src_ip;
  dst_ip = l.ip.dst_ip;
  src_port = l.tcp.src_port;
  dst_port = l.tcp.dst_port;
  ip_version = 4;
  tls_version = l.tls.tls_version;
  sni_len = 0;
  sni = replicate max_sni_len 0;
  fingerprint = pseudo_fingerprint ctx l.cert;
  cert_len = l.cert.copy_len;
  cert_data =
      copy_cert_data ctx (l.cert.first_cert_offset + 3) l.cert.copy_len (replicate max_cert_data 0);
  chain_depth = depth;
  issuer_fingerprint =
      if ltb 1 depth
      then extract_issuer_pseudo_fp ctx l.cert.first_cert_offset l.cert.cert_der_len ctx.len
          (replicate 32 0)
      else replicate 32 0;
  is_new = is_new;
}
  where
    depth : ℕ
    depth = count_chain_depth ctx (l.cert_msg_offset + 3) ctx.len l.cert.certs_total_len

-- What the collector may write: the counters, the two maps and the ring buffer.
pub record Kernel (Seen Stats Events : Type 0) : Type 0 where
  pub counters : Counters
  pub seen : Seen
  pub stats : Stats
  pub events : Events

module _ (seen_certs cert_stats : BpfMap ℕ) (ring : RingBuf TlsCertEvent) where
  abbrev pub State : Type 0
  State = Kernel seen_certs.Carrier cert_stats.Carrier ring.Carrier

  unfoldable pub emit : TcContext → ℕ → Located → Exec State ℕ (Unit {0})
  emit ctx timestamp_ns l k =
      let (is_new, seen', stats') =
        is_new_cert seen_certs cert_stats (pseudo_fingerprint ctx l.cert) timestamp_ns k.seen
          k.stats in
      let k' = record k { seen = seen'; stats = stats' } in
      if ring.reserve k.events
      then (
        ok tt,
        record k' { events = ring.submit k.events (fill_event ctx l timestamp_ns is_new) },
      )
      else (
        err err_ringbuf_full,
        record k' { counters = increment_drop_counter drop_idx_ring_full k.counters },
      )

  -- `timestamp_ns` is the kernel's clock, which is read once.
  unfoldable pub parse_tls_handshake : TcContext → ℕ → Exec State ℕ (Unit {0})
  unfolding emit
  parse_tls_handshake ctx timestamp_ns k =
      let (found, counters') = locate ctx k.counters in
      let k' = record k { counters = counters' } in
      elim found [ ok l ↦ emit ctx timestamp_ns l k' | err e ↦ (err e, k') ]

  -- `tlapix_ingress` and `tlapix_egress`: both answers of the parser pass the packet on.
  unfoldable pub tlapix_ingress : TcContext → ℕ → State → ℕ × State
  tlapix_ingress ctx timestamp_ns k =
      let (r, k') = parse_tls_handshake ctx timestamp_ns k in
      (elim r [ ok _ ↦ tc_act_ok | err _ ↦ tc_act_ok ], k')
