-- ===== src/Ebpf/Pipeline.antt =====
-- The kernel programs together: what the collector reports, and what the executor programs then do
-- with the same packet (crates/tlapix-ebpf/src/main.rs and executor.rs).
use tlapix.Common.{some, [], ◌∷◌, ◌%◌, ◌^◌, ℕ, ◌+◌, ◌≡◌, ◌↔◌, false, none, ok, err, arith, ◌≢◌, ◌⊎◌}
use tlapix.Ebpf.Packet.{TcContext}
use tlapix.Ebpf.Maps.{BpfMap, RingBuf, BpfActionEntry, is_new_cert}
use tlapix.Ebpf.Collector.Headers.{
  Counters, err_ringbuf_full, increment_drop_counter, drop_idx_ring_full,
}
use tlapix.Ebpf.Collector.Events.{
  TlsCertEvent, Located, locate, fill_event, pseudo_fingerprint, State, parse_tls_handshake,
}
use tlapix.Ebpf.Collector.Errors.{locate_error, ring_drops, locate-drops}
use tlapix.Ebpf.Executor.Headers.{extract_cert_fingerprint}
use tlapix.Ebpf.Executor.Programs.{tlapix_isolate}
use tlapix.Ebpf.Executor.Verdicts.{isolate_verdict, isolate_of_extract}
use tlapix.Ebpf.Executor.Agreement.{locate_agree}

one_more_drop :
    (cs : Counters) {n : ℕ}
    → ring_drops cs ≡ some n
    → ring_drops (increment_drop_counter drop_idx_ring_full cs) ≡ some ((n + 1) % 2 ^ 64)
unfolding increment_drop_counter
one_more_drop [] h = absurd (ground arith)
one_more_drop (c ∷ cs) {n} h = ground arith

module _ (seen_certs cert_stats : BpfMap ℕ) (ring : RingBuf TlsCertEvent) where
  parse_ok :
      (ctx : TcContext) (now : ℕ) (k : State seen_certs cert_stats ring)
      → (parse_tls_handshake seen_certs cert_stats ring ctx now k).0 ≡ ok tt
      → (l : Located) × ((locate ctx k.counters).0 ≡ ok l)
        × ((parse_tls_handshake seen_certs cert_stats ring ctx now k).1.events
            ≡ ring.submit k.events (
                fill_event ctx l now
                  (is_new_cert seen_certs cert_stats
                    (pseudo_fingerprint ctx l.cert)
                    now
                    k.seen
                    k.stats).0))
  unfolding parse_tls_handshake
  parse_ok ctx now k h = ground arith

  -- A packet that the collector reports: one event is submitted, its fingerprint is the one that the
  -- executor programs extract from the packet, and it is marked new exactly when the fingerprint is
  -- not among the seen ones.
  pub reported-extract :
      (ctx : TcContext) (now : ℕ) (k : State seen_certs cert_stats ring)
      → (parse_tls_handshake seen_certs cert_stats ring ctx now k).0 ≡ ok tt
      → (e : TlsCertEvent) × ((parse_tls_handshake seen_certs cert_stats ring ctx now k).1.events
          ≡ ring.submit k.events e)
        × (extract_cert_fingerprint ctx ≡ ok e.fingerprint)
        × ((e.is_new ≡ 1) ↔ (seen_certs.get k.seen e.fingerprint ≡ none))
  unfolding fill_event is_new_cert
  reported-extract ctx now k h =
      let (l, found, submitted) = parse_ok ctx now k h in
      (_, submitted, locate_agree ctx k.counters found, ground arith)

  -- The isolate program decides on every packet that the collector reports by the entry that its map
  -- holds for the reported fingerprint: to isolate a certificate, it is enough to write an active
  -- entry under the fingerprint of its event.
  pub reported-isolate :
      (actions : BpfMap BpfActionEntry) (ctx : TcContext) (now : ℕ)
      (k : State seen_certs cert_stats ring) (m : actions.Carrier)
      → (parse_tls_handshake seen_certs cert_stats ring ctx now k).0 ≡ ok tt
      → (e : TlsCertEvent) × ((parse_tls_handshake seen_certs cert_stats ring ctx now k).1.events
          ≡ ring.submit k.events e)
        × (tlapix_isolate actions ctx m ≡ isolate_verdict (actions.get m e.fingerprint))
  reported-isolate actions ctx now k m h =
      let (e, submitted, extracted, _) = reported-extract ctx now k h in
      (e, submitted, isolate_of_extract actions ctx m extracted)

  -- A packet that is not reported submits no event. Either the ring buffer was full, which the error
  -- says, and the drop counter of the ring buffer is one higher, modulo 2^64; or the error is another
  -- one, and that counter, the seen set and the connection counts are as before.
  pub unreported :
      (ctx : TcContext) (now : ℕ) (k : State seen_certs cert_stats ring) {e drops : ℕ}
      → ring_drops k.counters ≡ some drops
      → (parse_tls_handshake seen_certs cert_stats ring ctx now k).0 ≡ err e
      → let k' = (parse_tls_handshake seen_certs cert_stats ring ctx now k).1 in
        (k'.events ≡ k.events)
        × (((e ≡ err_ringbuf_full)
              × (ring.reserve k.events ≡ false)
              × (ring_drops k'.counters ≡ some ((drops + 1) % 2 ^ 64)))
            ⊎ ((e ≢ err_ringbuf_full)
                × (ring_drops k'.counters ≡ some drops)
                × (k'.seen ≡ k.seen)
                × (k'.stats ≡ k.stats)))
  unfolding parse_tls_handshake
  unreported ctx now k {e} {drops} counted h = ground (
    arith,
    locate_error ctx k.counters {e = e},
    locate-drops ctx k.counters,
    one_more_drop (locate ctx k.counters).1 {n = drops},
  )
