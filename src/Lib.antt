-- ===== src/Lib.antt =====
-- Lachesis: a node agent that counts the traffic of virtual machines. A kernel program counts bytes and
-- packets for each flow; the agent drains those counters, attributes each flow to a tenant, a server and
-- an external network, and exposes cumulative series that billing reads. This library models the parts
-- of the agent that decide what the series say.
--
-- The parts and their files:
-- Base: shared names, 64-bit words, texts with decidable equality, and Go's maps as association lists
--   whose order stands for the order of iteration.
-- Bpf (internal/bpf/abi.go, internal/bpf/schema.go): flow keys, readings, the packed MAC key.
-- State (internal/state/state.go, internal/state/schema.go): `GlobalState`, the counters of each flow
--   and the settled buckets of the tenant, server and total tiers. ApplyDelta, Add, Resolve, Settle and
--   the two prunes are `apply_delta`, `add`, `resolve`, `settle`, `prune_server_settled` and
--   `prune_tenant_settled`; State.Snapshot has the snapshots and the restores. State.Exposure says what
--   value a series shows.
-- Metadata (internal/metadata): the sharded map from MACs to what is known of them, the labels of a
--   flow, and the numbering of tenants.
-- Unresolved (internal/unresolved): the buffer of flows whose MAC is not known, and the classifier.
-- Gc (internal/gc/ghost.go): the sweep of ghosts.
-- Metrics (internal/metrics/collector.go, internal/metrics/schema.go): the aggregation of one pass of the
--   Collector, `collect`.
-- Trie (internal/kernelwriter/delta.go, internal/kernelwriter/writer.go): `ApplyTrieDelta`, the
--   incremental write of the kernel's trie, and `WriteSubnetZoneTrie`, the cold start's.
-- KernelMap (internal/kernelwriter/writer.go): `WriteMacTenantMap` and the value that it writes.
-- Flush (internal/agent/walflush.go): `settleLingeringGhosts`, the fold before a flush to the log.
-- Wal (internal/wal/wal.go, internal/wal/schema.go): the wire types and their conversions; Wal.Files has
--   `Save`, `Load` and `Quarantine` as `save`, `load` and `quarantine_file`, on the four files of the log.
-- Restart (internal/agent/walflush.go): `flushWAL` and `restoreFromWAL`, with the fold of the rows whose
--   owner changed while the agent was down.
-- Neutron (internal/neutron/types.go, schema.go, deviceowner.go): networks, subnets, ports and routers.
--   Neutron.Topology and Neutron.Routes (resolve.go) are `newResolveIndex` and `resolveStaticRouteZone`,
--   Neutron.Builder (trie.go) is `buildTrie`, and Neutron.Lookup (lookup.go) is `LookupZone`.
--   Neutron.External (externalnet.go) is `ExternalNetworkByPort` and `RouterExtMACs`, and
--   Neutron.Octavia (octavia.go) is `AmphoraOwnerByPort` and `AmphoraBaseIPs`.
-- AmphoraMap (internal/kernelwriter/writer.go): `WriteAmphoraBaseIPs`.
-- Reconcile (internal/reconcile/mac.go): `reconcileMACs`, the pass that brings the metadata map and the
--   kernel's map in line with the ports that a snapshot of the cloud wants. Reconcile.Desired is
--   `DesiredMACs`, Reconcile.Routers (routers.go) is `reconcileRouterMACs`, and Reconcile.Once
--   (reconcile.go) is `reconcileOnce`, which composes them with the trie delta and the prunes.
-- Upkeep: passes of the reconciler, sweeps of the ghosts and folds of lingering ghosts as steps of one
--   agent, in any order.
-- Series: the series that a metadata map and a store show together.
-- Tests: concrete data, and the theorems at it.
--
-- How they interact: the classifier looks a flow's MAC up in the metadata map and writes to the store or
-- to the buffer; the buffer writes to the store when it evicts, ages out or resolves an entry. The sweep
-- reads the metadata map, deletes in the kernel, folds the rows of what it deleted in the store under the
-- labels that the Collector shows, and then removes the metadata. A pass of the reconciler takes a snapshot
-- of the cloud, writes the kernel's trie, and only if that ends well brings the metadata map, the kernel's
-- maps, the router map and the store in line with it; it folds in the store what would change its label.
--
-- Bounds and fuel: counters are natural numbers whose sums are taken modulo 2^64, tenant numbers modulo
-- 2^32. `evict_over_cap` runs on as much fuel as the buffer has entries: each round removes one. The
-- trace of a static route runs on `maxHops`, as the code does. `save` makes the four calls that `Save`
-- makes after the marshalling. All other loops recurse on the list they walk.
--
-- A method that holds a lock throughout is one function from state to state. The kernel's maps are
-- parameters: records with a type of states and a deletion that may fail.
--
-- Text is parsed by Go's netip and net, which are a parameter; what they parse to stands in Neutron. JSON
-- is a parameter too, and so is the comparison of texts without case. A `Save` is the sequence of its
-- calls on the files: the write of the temporary file, two renames, and the sync of the directory, each
-- with an outcome; a process may die between two of them. What a power loss does to
-- writes that were not synced is not modelled.
--
-- Not modelled: the anomalies and the look-up of resources (internal/neutron), the timer and the kicks of
-- the reconciler's loop (internal/reconcile/reconcile.go), relief of a full kernel map
-- (internal/gc/pressure.go), the scraper's tick and the order of the boot, which are further logic of the
-- agent that stands around the parts above; the publication of gauges and logs in every part; drivers of
-- OpenStack, Kafka and netlink, loading and attaching kernel programs, the debug server, configuration,
-- and the load and scenario tests, which are I/O around this core.
--
-- A kernel map's documented behaviour (a call that succeeds does what it says and touches no other key)
-- and the injectivity of the machine's byte order are hypotheses of the theorems that use
-- them. The comment above a theorem states its conditions.
pub mod Base
pub mod Bpf
pub mod State
pub mod Metadata
pub mod Unresolved
pub mod Series
pub mod Metrics
pub mod Gc
pub mod Trie
pub mod KernelMap
pub mod AmphoraMap
pub mod Upkeep
pub mod Flush
pub mod Neutron
pub mod Reconcile
pub mod Wal
pub mod Restart
pub mod Tests
