-- ===== src/Ebpf/Collector/Bounds.antt =====
-- Bounds of what the collector of crates/tlapix-ebpf/src/main.rs reads and reports.
use tlapix.Common.{ℕ, zero, suc, ◌+◌, ◌<◌, ◌≤◌, ◌≡◌, ok, arith}
use tlapix.Ebpf.Packet.{TcContext}
use tlapix.Ebpf.Collector.Headers.{Counters, Cert, max_cert_data, copy_length, parse_cert}
use tlapix.Ebpf.Collector.Chain.{depth_loop, count_chain_depth}

depth_loop_bounds :
    (ctx : TcContext) (pkt_len end k offset depth : ℕ)
    → (depth ≤ depth_loop ctx pkt_len end k offset depth)
      × (depth_loop ctx pkt_len end k offset depth ≤ depth + k)
unfolding depth_loop
depth_loop_bounds ctx pkt_len end zero offset depth = omega arith
depth_loop_bounds ctx pkt_len end (suc k) offset depth =
    grind (arith, depth_loop_bounds ctx pkt_len end k)

-- Whatever the packet holds, the reported chain depth is between 1 and 10.
pub count_chain_depth_bounds :
    (ctx : TcContext) (start pkt_len total_len : ℕ)
    → (1 ≤ count_chain_depth ctx start pkt_len total_len)
      × (count_chain_depth ctx start pkt_len total_len ≤ 10)
unfolding count_chain_depth
count_chain_depth_bounds ctx start pkt_len total_len =
    ground (arith, depth_loop_bounds ctx pkt_len (start + total_len) 10 start 0)

-- The bytes that are copied lie in the packet, in the certificate and in the buffer.
pub copy_length_bounds :
    (pkt_len cert_der_len offset : ℕ)
    → (copy_length pkt_len cert_der_len offset ≤ max_cert_data)
      × (copy_length pkt_len cert_der_len offset ≤ cert_der_len)
      × (0 < copy_length pkt_len cert_der_len offset
          → offset + copy_length pkt_len cert_der_len offset ≤ pkt_len)
unfolding copy_length
copy_length_bounds pkt_len cert_der_len offset = ground arith

pub parse_cert_ok :
    (ctx : TcContext) (o : ℕ) (cs : Counters) {c : Cert}
    → (parse_cert ctx o cs).0 ≡ ok c
    → (c.first_cert_offset ≡ o + 3)
      × (0 < c.cert_der_len)
      × (c.cert_der_len ≤ 65535)
      × (0 < c.copy_len)
      × (c.copy_len ≡ copy_length ctx.len c.cert_der_len (c.first_cert_offset + 3))
unfolding parse_cert
parse_cert_ok ctx o cs h = ground arith
