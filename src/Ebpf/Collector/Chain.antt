-- ===== src/Ebpf/Collector/Chain.antt =====
-- The chain and data helpers of crates/tlapix-ebpf/src/main.rs: the bounded loops over the packet.
use tlapix.Common.{
  ℕ, zero, suc, ◌+◌, ◌-◌, Bool, true, false, ◌||◌, ◌&&◌, List, set, ltb, leb, ◌==◌, if◌then◌else◌,
  Result, ok, err,
}
use tlapix.Common.Attempt.{◌>>=◌}
use tlapix.Ebpf.Packet.{TcContext, ctx_load_u8, be24}
use tlapix.Ebpf.Collector.Headers.{max_cert_data}

-- Three bytes, big-endian; an error of any load ends the caller's loop.
unfoldable pub load_be24 : TcContext → ℕ → Result ℕ ℕ
load_be24 ctx offset = do
  b0 ← ctx_load_u8 ctx offset
  b1 ← ctx_load_u8 ctx (offset + 1)
  b2 ← ctx_load_u8 ctx (offset + 2)
  ok (be24 b0 b1 b2)

-- The loop of `count_chain_depth`; `k` rounds are left of at most 10.
unfoldable pub depth_loop : TcContext → ℕ → ℕ → ℕ → ℕ → ℕ → ℕ
depth_loop ctx pkt_len end zero offset depth = depth
depth_loop ctx pkt_len end (suc k) offset depth =
    if ltb pkt_len (offset + 3) || ltb end (offset + 3)
    then depth
    else elim (load_be24 ctx offset) [
      | err _ ↦ depth
      | ok zero ↦ depth
      | ok (suc n) ↦ depth_loop ctx pkt_len end k (offset + (3 + suc n)) (depth + 1)
    ]

unfoldable pub count_chain_depth : TcContext → ℕ → ℕ → ℕ → ℕ
count_chain_depth ctx start pkt_len total_len =
    let depth = depth_loop ctx pkt_len (start + total_len) 10 start 0 in
    if depth == 0 then 1 else depth

-- The inner loop of `copy_cert_data`: `k` bytes are left of the chunk, and `false` is its `return`.
unfoldable pub copy_chunk : TcContext → ℕ → ℕ → ℕ → List ℕ → List ℕ × Bool
copy_chunk ctx offset zero i dest = (dest, true)
copy_chunk ctx offset (suc k) i dest = elim (ctx_load_u8 ctx (offset + i)) [
  | ok b ↦ copy_chunk ctx offset k (i + 1) (set dest i b)
  | err _ ↦ (dest, false)
]

unfoldable pub chunk_end : ℕ → ℕ → ℕ
chunk_end len i =
    if ltb (i + 64) len && ltb (i + 64) max_cert_data
    then i + 64
    else if ltb len max_cert_data
    then len
    else max_cert_data

-- The outer loop, on fuel.
unfoldable pub copy_loop : ℕ → TcContext → ℕ → ℕ → ℕ → List ℕ → List ℕ
copy_loop zero ctx offset len i dest = dest
copy_loop (suc fuel) ctx offset len i dest =
    let (dest', more) = copy_chunk ctx offset (chunk_end len i - i) i dest in
    let rest = copy_loop fuel ctx offset len (chunk_end len i) dest' in
    if ltb i len && ltb i max_cert_data then (if more then rest else dest') else dest

-- A round copies 64 bytes or is the last one: 65 rounds are enough for `MAX_CERT_DATA` bytes.
unfoldable pub copy_cert_data : TcContext → ℕ → ℕ → List ℕ → List ℕ
copy_cert_data ctx offset len dest = copy_loop 65 ctx offset len 0 dest

-- The loop of `extract_issuer_pseudo_fp`; it ends at the packet's end or at a failed load.
unfoldable pub issuer_loop : TcContext → ℕ → ℕ → ℕ → ℕ → List ℕ → List ℕ
issuer_loop ctx pkt_len offset zero i dest = dest
issuer_loop ctx pkt_len offset (suc k) i dest =
    if leb pkt_len (offset + i) then dest else elim (ctx_load_u8 ctx (offset + i)) [
      | ok b ↦ issuer_loop ctx pkt_len offset k (i + 1) (set dest i b)
      | err _ ↦ dest
    ]

unfoldable pub extract_issuer_pseudo_fp : TcContext → ℕ → ℕ → ℕ → List ℕ → List ℕ
extract_issuer_pseudo_fp ctx first_cert_offset first_cert_len pkt_len dest =
    let second = first_cert_offset + 3 + first_cert_len in
    if ltb pkt_len (second + 3) then dest else elim (load_be24 ctx second) [
      | err _ ↦ dest
      | ok zero ↦ dest
      | ok (suc n) ↦
          issuer_loop ctx pkt_len (second + 3) (if ltb (suc n) 32 then suc n else 32) 0 dest
    ]
