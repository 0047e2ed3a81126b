-- ===== src/Lib.antt =====
-- MyCache-Go, a distributed cache: two in-memory stores, the cache that wraps a store, the group that
-- loads what the cache does not have from a peer or a data source, and the ring that spreads the keys
-- over the nodes.
--
-- The parts, and the files that model them:
-- - store/lru2/bucket.go, one preallocated bucket: Lru2/Bucket.antt, with the links in
--   Lru2/Bucket/Ring.antt. Lru2/Bucket/Spec.antt is what it promises, a list of entries, and
--   Lru2/Bucket/Theorems.antt ties the two; the files beside them hold the invariant of the links
--   and the index (Inv, Chain, Index) and a proof for each operation.
-- - store/lru2/utils.go: Lru2/Utils.antt, and Lru2/Clock.antt for the clock. store/lru2/cache.go:
--   Lru2/Shard.antt for one element of `buckets`, the hot and the warm level under one lock, and
--   Lru2/Store.antt for the whole cache and `New` of store/lru2/constructor.go.
-- - store/lru/cache.go and store/lru/constructor.go: Lru.antt, with container/list in
--   Lru/Elements.antt. Lru/Spec.antt is what it promises, a list of items, and Lru/Refine.antt with
--   the files below it ties the two; Lru/Fitting.antt is the reference definition of `evict`.
-- - The goroutines that clean the two stores, and their `Close`: Cleaners.antt.
-- - consistenthash/ring.go: HashRing.antt, with `sort.Search` in HashRing/Search.antt;
--   consistenthash/balancer.go: HashRing/Balancer.antt. HashRing/Fleet.antt compares the rings of two
--   nodes.
--   HashRing/Rebalance.antt says how many virtual nodes the balancer leaves each node.
-- - cache.go: Cache.antt, over the interface `Store` of store/types.go as the record `StoreOps`.
--   Cache/Laws.antt is what the cache relies on, and Cache/Backed.antt shows it of
--   store/lru2; Cache/Options.antt chooses the store as `NewStore` does.
-- - group.go: Group.antt, over a cache. The peers, the data source and the clock are the record `Env`,
--   one for each call; a goroutine that syncs a peer is the `Sync` that the call returns.
--   The options of `NewGroup` are Group/Wiring.antt. The map of groups with its mutex is
--   Registry.antt, and `Stats` of a group and of its cache are Group/Report.antt.
-- - singleflight/singleflight.go: Singleflight.antt, any number of invocations of `Do`, which take
--   their steps in any order.
-- - server.go, its three handlers: Server.antt, over the map of groups, with the delivery of what a
--   node sends its peers. client.go: Client.antt, with gRPC as a parameter; Client/Nodes.antt puts two
--   nodes together.
--   `NewServer`, `Start` and `Stop` are Lifecycle.antt.
-- - registry/register.go: Services.antt, with the success of each call of etcd as a parameter.
-- - utils.go: PeerAddr.antt.
-- - peers.go: Peers.antt, the picker of a node, over the ring. A client is its address, and which
--   addresses have one is a parameter. Peers/Discovery.antt is the picker with its connections,
--   `NewClientPicker`, the watch and `Close`, over `NewClient` and `Close` of client.go in
--   Client/Dial.antt; Peers/Discovery/Forget.antt ties the two.
-- - byteview.go: ByteView.antt.
-- - Common.antt: numbers, lists, maps and 64-bit integers.
--
-- A method is a function from the state to the new state, with its result and the calls of the
-- callback `onEvicted` in order. A name is the source's name in the spelling of this language:
-- `SetWithExpiration` is `set_with_expiration`. Strings are lists of bytes, a uint16 and an int64 are
-- their bit patterns with the wrap-around written out. The readings of the clock, the order in which
-- Go iterates a map, the hash function of the ring and its floating-point numbers are arguments.
-- A lock is held for the whole of a call or of a part of it that is a definition of its own, so that
-- calls run one after the other; `Get` of store/lru has one part for each of its two locks.
--
-- Fuel: `walk` gets one more than the number of entries, the binary search the number of keys, the
-- second loop of `evict` the length of the list. Each is enough: a walk follows the chain of the
-- entries once and ends at the sentinel, a step of the search leaves fewer positions between its two
-- ends, and a round of `evict` takes an element out of the list.
--
-- Bounds: a bucket has from 1 to 65534 entries, since `cap+1` is a uint16, and a store has at most
-- 32768 buckets, since `mask+1` is one.
--
-- Not modelled: the value that a load of a group waits for in singleflight comes from outside, as the
-- argument of `get_waiting`, since a group has one call after the other and singleflight is a model of
-- its own; what container/list does where a `Get` of store/lru hands it an element that a `Clear` has
-- dropped since, which is why no `Clear` comes between the two parts of a `Get`; the time that loads
-- take; what gRPC does with a server or a connection; pb, which is generated; the intervals of tickers;
-- logs.
pub mod ByteView
pub mod Cache
pub mod Cleaners
pub mod Client
pub mod Common
pub mod Group
pub mod HashRing
pub mod Lifecycle
pub mod Lru
pub mod Lru2
pub mod PeerAddr
pub mod Peers
pub mod Registry
pub mod Server
pub mod Services
pub mod Singleflight
