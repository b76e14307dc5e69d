-- ===== src/Ebpf.antt =====
-- crates/tlapix-ebpf: the programs that run in the kernel. They look at each packet for a TLS
-- Certificate message; the collector reports it, the executor programs pass or drop the packet.
pub mod Packet
pub mod Maps
pub mod Collector
pub mod Executor
pub mod Pipeline
pub mod Tests
