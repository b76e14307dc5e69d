-- ===== src/Lib.antt =====
-- Tlapix watches TLS traffic from the kernel, analyses the certificates it sees and acts on them.
-- This library models its parts and proves what they promise.
--
--   Common     what the models share: numbers, lists, texts, instants, the results of fallible code.
--   Types      the data that the layers exchange (crates/tlapix-common/src/types.rs).
--   Storage    the database (crates/tlapix-common/src/storage.rs and storage_schema.sql): its tables as
--              lists of rows, every statement that changes one, the keys and references that they keep,
--              the round trip of a certificate and the retention. SQLite and serde_json are the
--              environment: each operation may fail, as a list of faults says.
--   Ebpf       the kernel programs (crates/tlapix-ebpf/src/main.rs, executor.rs, maps.rs): the collector
--              at ingress, which parses packets and submits events, and the executor's two programs,
--              which drop packets by the action maps. Loads from a packet, the maps and the ring
--              buffer belong to the kernel and are parameters.
--   Analyzer   host name matching, the anomaly detector, the shadow classifier, the escalation of shadow
--              certificates, the reconciliation with the inventory, and the prediction of failed renewals
--              with its cycle over the storage (crates/tlapix-analyzer/src/sni_match.rs, anomaly.rs,
--              shadow.rs, shadow_escalation.rs, reconciliation.rs, renewal.rs, renewal_scheduler.rs).
--              Clock readings, fresh identifiers, floating-point numbers and the case mappings of
--              Unicode are parameters.
--   Collector  the buffer that holds records while the analyzer is away, a round of its flush loop, the
--              sink over a channel, and the deduplication over an LRU cache
--              (crates/tlapix-collector/src/buffer.rs, dedup.rs).
--   Executor   the service that writes directives to the action maps, with its limits, retries and
--              notifications, the map in memory, and how its entries meet the kernel's programs
--              (crates/tlapix-executor/src/map_writer.rs), the resolution of conflicts between
--              directives and the sweep over stale ones (crates/tlapix-executor/src/expiry.rs), the handling
--              of failures (crates/tlapix-executor/src/failure_handler.rs), and the validation of the
--              kernel programs (crates/tlapix-executor/src/integrity.rs).
--   Daemon     the webhook dispatcher with its retries (crates/tlapix-daemon/src/webhooks.rs). The HTTP
--              client is a parameter.
--
-- How they interact: the collector program submits an event for a packet and the executor programs
-- judge the same packet; Ebpf/Pipeline.antt relates the two parsers. Collector buffers the records for
-- the analyzer, and its deduplication stores them. Escalation, reconciliation, the cycle of predictions,
-- the sweep and the failure handler read and write the storage through its operations. Executor resolves
-- directives and writes them as entries that the kernel programs read;
-- Executor/MapWriter/Enforced.antt relates the two, for a writer whose maps are those of the kernel, by
-- the fingerprint that the programs take, the first 32 bytes of the certificate
-- (the source has the trait and a map in memory; crates/tlapix-daemon/src/main.rs does not start the
-- service). Code that can fail returns
-- Result, Option or an outcome; a panic is `none`. Machine integers wrap as in a release build. Every
-- instant and duration of a run is an argument, and what a third party holds (a map of the kernel, a
-- channel, the network) is a state that its operations, which are parameters, change.
--
-- Loops are structural on a count of rounds: the copy of certificate data takes 65 rounds of 64 bytes
-- at most, which is more than 4096 bytes; the chain is followed for 10 certificates, as in the code;
-- fingerprints take 32 bytes; retries take the configured number of attempts; the decimal digits of n
-- take n + 1 rounds at most.
--
-- Not modelled: the query of recent directives, the audit trail, the ticks of the renewal scheduler, the
-- decoding of events and of X.509, ACME, the exporters, the web interface, locks, logs and the wiring of
-- tasks.
pub mod Common
pub mod Types
pub mod Storage
pub mod Ebpf
pub mod Analyzer
pub mod Collector
pub mod Executor
pub mod Daemon
