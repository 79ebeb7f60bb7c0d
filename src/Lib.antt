-- ===== src/Lib.antt =====
-- Verification of the GhalBol messenger (a Rust workspace): the logic of its calls, its media buffers, its
-- sessions and its mailbox server, translated function by function, with the theorems that make it correct.
--
-- The parts, and how they meet:
--
--   Common: what the parts share. Lists and texts over the native numbers (a text is its code points), `trim`
--   and lower case as `str` has them, signed 64-bit numbers, the hash map as a list of bindings and the B-tree
--   map as a sorted one.
--   Call: ghalbol_core/src/call_state.rs, the state of the call with each peer, and the signals of
--   ghalbol_core/src/call_sig_v1.rs that move it. Call/Outbound is `apply_outbound`, Call/Inbound is
--   `apply_inbound`, Call/State the queries and the expiry. Call/Connect, Glare, Expiry and Run hold
--   the theorems. Call/Active is ghalbol_core/src/p2p/call_active.rs, what the interface is told of the running call.
--   Media: what a connected call sends. Media/Jitter is `JitterBuffer` of ghalbol_core/src/call_media/jitter.rs.
--   Video goes through Media/Packet (`fragment_frame` and the payload of a chunk) to Media/Reassembly
--   (`Reassembler`, both of ghalbol_core/src/call_video/packet.rs) and Media/VideoJitter (`VideoJitter` of
--   call_video/jitter.rs); Media/Quality is `AdaptiveQuality` of call_video/quality.rs.
--   Session: ghalbol_core/src/connect/session.rs, the state of the connections: Session/State the outbox and the
--   messages that came in, Session/Acks the queues of acknowledgements, Session/Signals the call signals that
--   wait. The passes of connect/outbox_acks.rs are in Session/Signals (`flush_pending_call_signals`) and in
--   Session/Sends (the acknowledgements) and Session/Resync (the outbox).
--   Identity: ghalbol_core/src/identity.rs, the public keys that name people: their wire form (Identity/Wire) and
--   the percent code of URIs (Identity/Percent).
--   Contacts: ghalbol_core/src/contacts_v1.rs, the address book. Contacts/Contact is `SavedContact` and what the
--   operations make of one, Contacts/Book the operations under the lock of the store, which find a contact by its
--   Identity; Contacts/Alias is `sanitize_peer_display_alias` of preferences_v1.rs, for the names that peers send.
--   Transcript: ghalbol_core/src/dm_transcript_store.rs, the messages of each conversation in a JSON file.
--   Transcript/Line is a row (`StoredChatLine`), Decode the reading of a file that may be damaged, Order the
--   place of a line in its thread, Merge what is loaded for a contact, Patch the changes of rows (failures,
--   deliveries, times, paths, read acknowledgements), Keys the names of a thread and its revisions, and Store the
--   operations that callers use. A JSON object is the list of its fields.
--   ReadAcks: ghalbol_core/src/delivery_read_acks.rs, the read receipts of messages that came by the delivery
--   server: the queue of those that wait, those in flight, and the rows of the Transcript that ask for one
--   (with the keys of `inbound_transcript_lookup_keys` of dm_event_handler.rs). A call takes no time and calls do
--   not overlap; the receipts that go out are a log beside the state. ReadAcks/Acked, Again, Once and Receipts
--   hold the proofs.
--   Delivery: the server that keeps messages for those who are away. Delivery/Mailbox is the table of
--   ghalbol_delivery/src/store.rs with `upload` and `extend_ttl`; its children are the acknowledgements (Acks),
--   the sweep (Sweep), the reports (Reports) and the merge of mailbox_ops.rs (Import). Delivery/Policy is
--   policy.rs, Delivery/Challenge the challenges of auth.rs, Delivery/Error error.rs.
--   Coord: the server that tells where a peer can be reached, Coord/Presence the table of
--   ghalbol_coord/src/presence.rs, and Coord/Bridge the registry of ghalbol_coord/src/bridge.rs that pairs the
--   sockets of a call (Coord/Bridge/Request its requests, which hold the lock four times: what other tasks do in
--   between is an argument); Coord/Challenge is the table of challenges of
--   ghalbol_coord/src/auth.rs. Each step of a socket that holds the lock is one
--   function, so that a list of events is any order of the steps of its sockets. The clients are not modelled.
--
-- How the code is rendered: an operation on shared state takes the state and returns it with its result, in
-- the order the code has; a result that fails is an `err`, or a state returned with an `err` where the code
-- keeps the state. A lock is the state passed on and is never poisoned. The clock, random bytes and the answers
-- of the network and of the crypto libraries are arguments, and so are serde_json's parser and the address book.
-- Machine integers are numbers with their wrap-around written out (`u16`, `u32` and `u64` successors, the `i64`
-- sums of times); the theorems say where they exclude it. A SQL table is a map by its primary key, and each statement is a function on it; rows come in table order
-- where the statement has no ORDER BY.
--
-- Loops: each is by recursion on the list it goes over, but for the four rounds of a burst, which the code counts
-- too, and three loops that have fuel. The eviction of the reassembler
-- takes a frame out in each round and has as many rounds as there are frames; `slice::chunks` takes a byte at
-- least in each round and has as many rounds as there are bytes; the search for a prefix of a damaged
-- transcript halves what is left in each round and has two rounds more than bytes. All are proved to come to an
-- end within it.
--
-- Not modelled: cryptography (identities, signatures, ciphers, key exchange), codecs and devices, sockets, the
-- writing of files, the SQL engine, logging, the user interface, and the code that only chains these.
pub mod Common
pub mod Call
pub mod Media
pub mod Delivery
pub mod Identity
pub mod Contacts
pub mod Session
pub mod Transcript
pub mod ReadAcks
pub mod Coord
