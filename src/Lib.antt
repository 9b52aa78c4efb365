-- ===== src/Lib.antt =====
-- The sync core of meshbbs, a bulletin board that federates over Meshtastic radios: how nodes know
-- what they lack (internal/vv), how they find out and ask for it (internal/gossip), how a bundle of
-- records is cut into symbols that survive loss (internal/fountain), how symbols leave one node and
-- become records on another (internal/bsmp), how a link finds out which radio a node is at and
-- what it puts on the air (internal/meshlink), how a record is signed and read back (internal/record), how much airtime it may spend (internal/governor), and how
-- frames are found in the byte stream of a radio (internal/meshtastic/frame.go).
--
-- How the parts interact. A node keeps a version vector of the highest sequence it holds from each
-- origin. The gossip engine broadcasts a digest of its vectors when the scheduler says so; a peer that
-- differs and is behind waits, asks for the vector, and asks for the ranges that it is missing, and
-- the answer is a broadcast of records. The records that are
-- asked for are packed into a bundle, whose ID is a prefix of its digest; the outbox cuts the bundle
-- into symbols and sends each of them in a frame over a link that may refuse. The inbox of a peer
-- collects the symbols of each sender and bundle in a decoder, and hands the bundle to the engine when
-- the decoder is done and the digest agrees. On a mesh, the link learns from signed announcements which
-- radio a node is at, asks a radio that it cannot name to announce itself, and hands up a datagram only
-- in the name of a node that it knows. It sends a datagram only if the governor lets it through, which
-- charges it to a bucket of channel time, to the duty cycle of the region and to the share of its area.
--
-- Files and the code they model:
--   Common: Go maps as association lists (Map), bytes and words (Bytes), encoding/binary's uvarint
--     (Uvarint), sort.Slice (Sort), exclusive or (Xor), results and Boolean tests.
--   Identity: internal/identity. Ids has the node ID of nodeid.go, a list of eight bytes; Base32 has
--     EncodeBase32, DecodeBase32 and Group of base32.go.
--   Vv: internal/vv/vv.go. Vv.antt has the operations (Get, Set, FromMap, Merge, Merged, Clone, Equal,
--     Dominates, Origins, Missing, Count, Hash), Vv/Wire the wire form (Encode, Decode and
--     canonicalUvarint); Merge, Order, Equality and Zero hold the theorems.
--   Fountain: internal/fountain/fountain.go and codec.go. Symbol has Symbol.Encode and DecodeSymbol,
--     Mask has mask, Encoder has NewEncoder, Symbol and Transmission, Solve has trySolve (Gaussian
--     elimination over GF(2)), Decoder has NewDecoder, Add and Payload.
--   Bsmp: internal/bsmp. Outbox has SendMessage, SendRecords, SetDictionary, SetLossRate and Forget;
--     Inbox has Deliver, symbol, expire and evictToCap; Frame, Faithful and EndToEnd join the two.
--   Gossip: internal/gossip. Gossip.antt has what the messages share (wire.go and the head of digest.go);
--     Digest, VectorReq and RangeReq have the messages of digest.go, and FitRanges. Schedule has the
--     Scheduler of schedule.go. Engine is engine.go: Engine.antt has the state, Parts what the handlers
--     share (Digest, DictionaryFloor, noteAwaited, settleAwaited, noteDelivery, scheduleAsk), Handlers
--     onDigest, onVectorReq, onVector and onRangeReq, Cycle Tick, firePending, Receive, Publish and
--     ApplyRecords; Pending, Firing, Quiet, Behind, Asks, Asked, Lacking and Converge hold the
--     theorems.
--   Governor: internal/governor/governor.go. Governor.antt has the state, Bucket the buckets and the rules of
--     check, Calls the methods, Run any sequence of calls with its times; Check, Outcome, Rate, LastHour,
--     Duty, WellFormed and Reachable hold the theorems.
--   Meshlink: internal/meshlink. Wire has wire.go, Peers the peerTable and askRate of peers.go; of link.go,
--     Links has the state, Receive deliver with onAnnounce, onWhoIs and askWhoIs, and Transmit Send, SendCharged,
--     announce and sendFrame. The governor of a link is the one of Governor, or none. Wire/RoundTrip, Table, Learn,
--     Attribution, Deliver, Charged and Asking hold the theorems.
--   Record: internal/record/record.go and codec.go. Codec has New, Verify, Marshal and Unmarshal; RoundTrip holds the
--     theorems.
--   Meshtastic: internal/meshtastic/frame.go. Frame has AppendFrame, FrameReader and sanitiseText; Stream,
--     Account and Text hold the theorems.
--   Store: internal/store/gossipstore.go. Store.antt has Vector, on any answer of the database to its query, in which
--     a row may be unreadable; Contiguous, Complete and Catchup hold the theorems.
-- The Tests modules run the definitions on concrete inputs.
--
-- State. A method that mutates its receiver returns the new record. A Go map is a list of entries whose
-- order stands for the order of range, which Go leaves open; no result depends on that order, but
-- where the statement names it. A lock is one step: what Inbox.symbol does under its lock is receive,
-- what it does after is apply_packed. firePending filters its queue in place, and the model
-- writes out what an error leaves in it. A reader of a stream is the bytes to come and then its end. Times are whole nanoseconds. AllowCharge reads the
-- clock twice; the model has one time for both.
--
-- Loops and fuel. Loops are structural recursion. append_uvarint has its value as fuel, which is enough
-- since each round divides the value by 128; evict_loop has the number of decoders, and each round takes
-- one away; fit_loop has the number of ranges; the loop of SendRecords has the number of rounds between the cursor and the total.
--
-- Integers. uint64 sums wrap where the source's do (Count, and the ends of the ranges of a request); sequence numbers, indices and lengths are
-- naturals, with the range of their Go type as a hypothesis where a theorem needs it.
--
-- Parameters. The digest function (BLAKE3) is any function on lists of bytes. The link, the
-- bundle format (internal/bundle, over zstd), the repair count and the comparison of loss
-- rates (floating point) are fields of a record that the definitions take; so are the store, the
-- outbox, the jittered interval and the steps of the loss rate for the gossip engine, and for the inbox
-- what it hands bundles to. An outbox answers from the calls that it has seen. The floating-point
-- numbers of the governor are a type with the arithmetic that the source does with them, the airtime of
-- a packet and the time of day; IsRate says what the bound on its spending needs of them. Ed25519 is
-- a record of functions, and IsKey says that a signature verifies; the database is its
-- answers, which IsOrdered says are in the order of the query; Stores says what the exchange of two nodes needs of
-- their stores; the checks of the bodies of FILE and DOOR_EVENT
-- records are a function of the type and the body; whether a
-- connection takes a frame is a function of the frame.
--
-- Not modelled: bundles and the bodies of records, the airtime of a packet, the connection of the mesh link to its
-- radio with its supervision, the IP transport, sneakernet, doors, the rest of storage, and the user interfaces;
-- constructors that only check their arguments, event callbacks, traces and String methods of the modelled parts,
-- and the reports of the governor for its status screen.
pub mod Common
pub mod Identity
pub mod Vv
pub mod Fountain
pub mod Bsmp
pub mod Meshtastic
pub mod Gossip
pub mod Governor
pub mod Meshlink
pub mod Record
pub mod Store
