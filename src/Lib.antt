-- ===== src/Lib.antt =====
-- The core of Mint-ConnectUnit, a peer-to-peer VPN without a server: path MTU discovery, sealed frames
-- and replay windows, datagrams, reliable control messages, the claims of addresses with the gossip
-- about them, the synchronisation of status, and the deduplication of broadcasts. Each component is a
-- state as a record and one function for each operation, which returns the new state with what the
-- operation reports; an instant or a duration is a number of milliseconds that the caller passes in,
-- where the program asks the clock.
--
-- Pmtud models src/pmtud.rs, with the tuning of src/advanced_tuning.rs. `PathMtuDiscovery` keeps a
-- table of peers by endpoint; State holds the types, Peer the methods of one peer, Fail what a failed
-- probe does, Probe the sending and the timeout of probes, Tick the loops of `on_tick` in their order,
-- Ack `on_ack` and `on_send_hard_fail`, and Setup all other methods. Inv, FailInv, ProbeInv, TickInv,
-- GraceInv, AckInv and Run carry the invariant through every operation; Exchange runs the probes of a
-- peer over a path, Turns and Window follow its steps and the window, and Search the whole bisection;
-- Answers, Limits, Pinned and Issued hold what the operations promise. The order in which the source
-- walks its hash map is the order of the table here, and the round-trip time, a float of milliseconds
-- in the source, is a number of microseconds.
--
-- Crypto models src/crypto.rs: Window and Replay the window of 128 counters, Sources the table of
-- windows by source, Wire the counter on the wire and the invitation, Frame the sealed packets. The
-- cipher, HKDF and the base-64 alphabet are parameters; what is relied on of them stands as hypotheses.
-- A u128 of bits is a number whose digits Bits reads and sets.
--
-- Packet models src/net/packet.rs: Datagram the compact and control datagrams, Mctl the compound
-- control body. Frame of Crypto uses Datagram, as the program does for its sealed packets.
--
-- Claim models src/net/claim.rs in Vip and src/net/claim_gossip.rs in Gossip (claims, tombstones,
-- suppressed fights) and Settle (duplicates and digests), with Merge, Removal, Order and Winner about
-- them. A text is the list of its bytes, and the parser of addresses is a parameter.
--
-- Broadcast models src/bcast.rs: Dedup the set of keys, the timeline and the key of a packet, over a
-- hasher that is a parameter, and Stale what they promise together.
--
-- Reliable models src/net/reliable.rs, with its tuning of src/advanced_tuning.rs and what
-- src/net/engine.rs reads of its packets: Timer the timeouts and the estimates of the round trip,
-- Channel the state and the operations, Tick the loop over the heap of deadlines, Delivery the packets
-- on the wire. The heap is the list of its entries in order. Heap, Due, Steps, Sweep, Loop and Run
-- carry the deadlines through every operation, History through any sequence of them, and Answers says
-- what a send and an acknowledgement do. The fuel of the tick is the number of its entries and the
-- retries that are left, of which every round uses one. The bounds of a timeout, u32 that the source
-- casts to i32, are taken to be less than 2^31, and a hint less than 2^29.
--
-- Msyn models src/net/msyn_sync.rs: Epoch the routes, the removed addresses and what a peer is owed,
-- Shard the packing of an epoch into parts, Assemble the buffers of a receiver and the part that comes
-- in. Contents, Packing and Refusal say what a sharding gives and why it refuses, Buffers and Ingest
-- keep the bounds of the buffers, Values, Rejoin and Arrival carry an epoch from a sender to a
-- receiver. The JSON of a part is made and read by parameters, of which it is required that what is
-- printed is read as its fields.
--
-- Prelude has the shared names, Boolean tests, list lemmas and key tables; Addr the endpoints. The fuel
-- of `evict_oldest` is the number of sources, of which each round removes one; that of `issue_loop` is
-- the length of its list, as in the source's loop; that of `scan_hosts` is the 254 hosts. Tests under
-- each component runs functions on concrete inputs and applies the theorems to such.
--
-- Not modelled: sockets, tasks, devices, files, the command line and the display; the estimates in
-- floating point (congestion control, loss ratios, the bucket of direct retransmissions); forward error
-- correction, pacing and routing.
pub mod Addr
pub mod Bits
pub mod Broadcast
pub mod Claim
pub mod Crypto
pub mod Msyn
pub mod Packet
pub mod Pmtud
pub mod Prelude
pub mod Reliable
