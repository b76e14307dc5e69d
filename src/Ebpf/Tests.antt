-- ===== src/Ebpf/Tests.antt =====
-- Runs of the kernel programs on one captured packet, and the theorems at it.
use Prim.Native.Nat.{bit_and}
use tlapix.Common.{
  ℕ, zero, suc, ◌+◌, ◌*◌, ◌≡◌, ◌≢◌, ◌↔◌, ◌⊎◌, refl, false, Option, none, some, List, [], ◌∷◌, ◌++◌,
  Result, ok, err, get_elem?, bytes_eq, length, replicate, ◌==◌, ltb, if◌then◌else◌, arith,
}
use tlapix.Ebpf.Packet.{
  TcContext, ctx_load_u8, ctx_load_u16, ctx_load_u32, from_be16, from_be32, be24, tc_act_shot,
}
use tlapix.Ebpf.Maps.{
  Fingerprint, BpfMap, RingBuf, BpfActionEntry, flag_active, update_cert_stats, is_new_cert,
}
use tlapix.Ebpf.Collector.Headers.{
  err_ringbuf_full, increment_drop_counter, copy_length, parse_ip, parse_tcp, parse_tls,
  parse_handshake, parse_cert,
}
use tlapix.Ebpf.Collector.Chain.{load_be24, depth_loop, count_chain_depth}
use tlapix.Ebpf.Collector.Events.{
  TlsCertEvent, locate, pseudo_fp_loop, pseudo_fingerprint, fill_event, State, emit,
  parse_tls_handshake, tlapix_ingress,
}
use tlapix.Ebpf.Executor.Headers as Executor
use tlapix.Ebpf.Executor.Programs.{
  equal_loop, fingerprints_equal, try_protect, tlapix_protect, try_isolate, tlapix_isolate,
}
use tlapix.Ebpf.Executor.Verdicts.{isolate_verdict, isolate_iff, protect_iff}
use tlapix.Common.{◌%◌, ◌^◌}
use tlapix.Ebpf.Collector.Errors.{ring_drops}
use tlapix.Ebpf.Pipeline.{reported-extract, reported-isolate, unreported}

-- Ethernet, IPv4 and TCP headers without options, then a Certificate message with a chain of two
-- certificates, of 3 bytes and of 2.
abbrev pub bytes : List ℕ
bytes =
    replicate 12 0
    ++ (8 ∷ 0 ∷ 0x45 ∷ [])
    ++ replicate 8 0
    ++ (6 ∷ 0 ∷ 0 ∷ 10 ∷ 0 ∷ 0 ∷ 1 ∷ [])
    ++ (10 ∷ 0 ∷ 0 ∷ 2 ∷ 1 ∷ 187 ∷ 200 ∷ 0 ∷ [])
    ++ replicate 8 0
    ++ (0x50 ∷ [])
    ++ replicate 7 0
    ++ (0x16 ∷ 3 ∷ 3 ∷ 0 ∷ 18 ∷ 11 ∷ 0 ∷ 0 ∷ 14 ∷ 0 ∷ 0 ∷ 11 ∷ [])
    ++ (0 ∷ 0 ∷ 3 ∷ 48 ∷ 1 ∷ 7 ∷ 0 ∷ 0 ∷ 2 ∷ 48 ∷ 0 ∷ [])

-- A load of several bytes gives them in the order of a little-endian machine.
abbrev pub load : ℕ → ℕ → Option ℕ
load zero offset = some 0
load (suc n) offset = join (get_elem? bytes offset) (load n (offset + 1))
  where
    join : Option ℕ → Option ℕ → Option ℕ
    join (some b) (some rest) = some (b + 256 * rest)
    join _ _ = none

abbrev pub packet : TcContext
packet = record { len = length bytes; load_u8 = load 1; load_u16 = load 2; load_u32 = load 4 }

-- A map as a function, and a ring buffer with room for two events.
abbrev table : (V : Type 0) → BpfMap V
table V = record {
  Carrier = Fingerprint → Option V;
  get = λ m fp. m fp;
  insert = λ m fp v q. if bytes_eq q fp then some v else m q;
  write = λ m fp v q. if bytes_eq q fp then some v else m q;
}

abbrev ring : RingBuf TlsCertEvent
ring = record {
  Carrier = List TlsCertEvent;
  reserve = λ es. ltb (length es) 2;
  submit = λ es e. e ∷ es;
}

abbrev kernel : State (table ℕ) (table ℕ) ring
kernel = record {
  counters = 0 ∷ 0 ∷ 0 ∷ 0 ∷ [];
  seen = λ fp. none;
  stats = λ fp. none;
  events = [];
}

abbrev pub fingerprint : Fingerprint
fingerprint = 48 ∷ 1 ∷ 7 ∷ replicate 29 0

abbrev active_entry : BpfActionEntry
active_entry = record {
  fingerprint = fingerprint;
  action = 3;
  severity = 3;
  created_ts = 0;
  pinned_fp = replicate 32 0;
  flags = 1;
}

abbrev isolated : Fingerprint → Option BpfActionEntry
isolated fp = if bytes_eq fp fingerprint then some active_entry else none

programs : Unit {0}
unfolding ctx_load_u8 ctx_load_u16 ctx_load_u32 from_be16 from_be32 be24 update_cert_stats
    is_new_cert increment_drop_counter copy_length parse_ip parse_tcp parse_tls parse_handshake
    parse_cert load_be24 depth_loop count_chain_depth pseudo_fp_loop pseudo_fingerprint fill_event
    emit locate parse_tls_handshake tlapix_ingress bytes_eq Executor.parse_ip Executor.parse_tcp
    Executor.parse_tls Executor.parse_handshake Executor.parse_cert Executor.fingerprint_loop
    Executor.fingerprint_length Executor.extract_cert_fingerprint equal_loop fingerprints_equal
    try_protect tlapix_protect try_isolate tlapix_isolate
programs = tt

pub extracted : Executor.extract_cert_fingerprint packet ≡ ok fingerprint
unfolding programs
extracted = refl

collector_run : (parse_tls_handshake (table ℕ) (table ℕ) ring packet 5 kernel).0 ≡ ok tt
unfolding programs
collector_run = refl

isolate_run : tlapix_isolate (table BpfActionEntry) packet isolated ≡ tc_act_shot
unfolding programs
isolate_run = refl

chain_of_two : count_chain_depth packet 66 (length bytes) 11 ≡ 2
unfolding programs
chain_of_two = refl

abbrev handshake : Result ℕ (Unit {0}) × State (table ℕ) (table ℕ) ring
handshake = parse_tls_handshake (table ℕ) (table ℕ) ring packet 5 kernel

reported-extract_example :
    (e : TlsCertEvent) × (handshake.1.events ≡ e ∷ [])
    × (Executor.extract_cert_fingerprint packet ≡ ok e.fingerprint)
    × ((e.is_new ≡ 1) ↔ (◌≡◌ {A = Option ℕ} none none))
reported-extract_example = reported-extract (table ℕ) (table ℕ) ring packet 5 kernel collector_run

reported-isolate_example :
    (e : TlsCertEvent) × (handshake.1.events ≡ e ∷ [])
    × (tlapix_isolate (table BpfActionEntry) packet isolated
        ≡ isolate_verdict (isolated e.fingerprint))
reported-isolate_example =
    reported-isolate (table ℕ) (table ℕ) ring (table BpfActionEntry) packet 5 kernel isolated
      collector_run

-- The same packet, when the ring buffer has no room.
abbrev busy : State (table ℕ) (table ℕ) ring
busy = record kernel { events = e ∷ e ∷ [] }
  where
    e : TlsCertEvent
    e = record {
      timestamp_ns = 0;
      src_ip = 0;
      dst_ip = 0;
      src_port = 0;
      dst_port = 0;
      ip_version = 4;
      tls_version = 0;
      sni_len = 0;
      sni = [];
      fingerprint = [];
      cert_len = 0;
      cert_data = [];
      chain_depth = 1;
      issuer_fingerprint = [];
      is_new = 0;
    }

abbrev refused : Result ℕ (Unit {0}) × State (table ℕ) (table ℕ) ring
refused = parse_tls_handshake (table ℕ) (table ℕ) ring packet 5 busy

full_run : refused.0 ≡ err err_ringbuf_full
unfolding programs
full_run = refl

unreported_example :
    (refused.1.events ≡ busy.events)
    × (((err_ringbuf_full ≡ err_ringbuf_full)
          × (ring.reserve busy.events ≡ false)
          × (ring_drops refused.1.counters ≡ some ((0 + 1) % 2 ^ 64)))
        ⊎ ((err_ringbuf_full ≢ err_ringbuf_full)
            × (ring_drops refused.1.counters ≡ some 0)
            × (refused.1.seen ≡ busy.seen)
            × (refused.1.stats ≡ busy.stats)))
unreported_example = unreported (table ℕ) (table ℕ) ring packet 5 busy refl full_run

isolate_iff_example : (tlapix_isolate (table BpfActionEntry) packet isolated ≡ tc_act_shot) ↔ (
    (fp : Fingerprint) × (entry : BpfActionEntry) × (Executor.extract_cert_fingerprint packet
      ≡ ok fp)
    × (isolated fp ≡ some entry)
    × ((bit_and entry.flags flag_active == 0) ≡ false))
isolate_iff_example = isolate_iff (table BpfActionEntry) packet isolated

isolated_sized :
    (fp : Fingerprint) (entry : BpfActionEntry)
    → isolated fp ≡ some entry
    → length entry.pinned_fp ≡ 32
isolated_sized fp entry h = ground arith

protect_iff_example : (tlapix_protect (table BpfActionEntry) packet isolated ≡ tc_act_shot) ↔ (
    (fp : Fingerprint) × (entry : BpfActionEntry) × (Executor.extract_cert_fingerprint packet
      ≡ ok fp)
    × (isolated fp ≡ some entry)
    × (fp ≢ entry.pinned_fp))
protect_iff_example = protect_iff (table BpfActionEntry) packet isolated isolated_sized
