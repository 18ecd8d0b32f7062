-- ===== src/Lib.antt =====
-- tak-rs: the message bus, the wire format, and the way from a connection to its subscribers, the store
-- and the plugins.
--
-- The program. A TAK server takes Cursor-on-Target messages from its clients and fans them out to
-- those that subscribed to them. Bytes of a connection are cut into frames (crates/tak-cot), each frame
-- is decoded and handed to the bus (crates/tak-server, crates/tak-bus), and the bus offers it to the
-- bounded channel of each subscription whose type pattern, group mask and box take it. A row for the
-- database goes to the channel of a writer that batches rows (crates/tak-store), and a plugin worker may
-- see the message as well (crates/tak-plugin-host). CoT XML and the protobuf messages are converted both
-- ways (crates/tak-cot/src/proto.rs). The groups of a peer come from its certificate (crates/tak-net and
-- crates/tak-server/src/group_policy.rs). A simulator (crates/tak-bus-vopr) runs the bus beside an
-- abstract model and compares the two.
--
-- The files.
--   Common          shared helpers: Tests (Boolean tests), Equality (decidable equality as an
--                   instance, text as code points), Lists, Counts (lists by how often their
--                   elements occur), Bits (bits of native numbers)
--   Cot             crates/tak-cot/src/lib.rs: the errors, and a result type with an extra `panic`
--   Cot.Framing     crates/tak-cot/src/framing.rs: read_varint, write_varint, decode_stream,
--                   encode_stream, decode_mesh, encode_mesh, peek. Varint, Reader and Stream have the
--                   lemmas of the varint and of the decoder, RoundTrip those of both directions
--   Cot.Xml         crates/tak-cot/src/xml.rs: the views, walk_attrs, parse_event_attrs,
--                   parse_point_attrs, encode_xml, and in Decode decode_xml. Attrs has the walk over
--                   rendered attributes, Headers and Written what is set and what is written, Document both
--                   directions, Complete what the decoder promises
--   Cot.Proto       crates/tak-cot/src/proto.rs: the messages. Read has view_to_takmessage and what it
--                   calls, Write takmessage_to_xml, Decimal the numbers. Laws is what is assumed of the
--                   texts of f64 and times; Children, Typed, Round and Lossless are about build_detail,
--                   Lines, Events and Document about the text written, RoundTrip about both directions
--   Bus.Groups      GroupBitvector of crates/tak-bus/src/lib.rs, four 64-bit words
--   Bus.TypeIndex   the trie of crates/tak-bus/src/index.rs. Pattern is the reference matcher
--                   type_prefix_matches of crates/tak-bus-vopr/src/model.rs; Slots sees the trie as a
--                   table from slots to lists of ids; Total sums over the slots on the way along a CoT
--                   type; Matches counts what a lookup yields
--   Bus.Platform    the libraries that the bus uses, as a record of operations with laws: f64, Bytes,
--                   the bounded channel, the slab, the R-tree. Small is a concrete instance
--   Bus.Filter      Filter, GeoBbox and Inbound, with the reference filter_matches
--   Bus.State       the fields of Bus, and get_filter, len, subscription_stats
--   Bus.Registry    subscribe, subscribe_with_capacity, unsubscribe, the drop of a handle. Invariant
--                   states when a bus is valid, Preserved and Removal that it stays so
--   Bus.Dispatch    try_send_to, extend_candidates and dispatch (crates/tak-bus/src/dispatch.rs), with
--                   Candidates, Delivery, Stats, Counters and Sends for what they do
--   Net.Auth        crates/tak-net/src/auth.rs: UserStore, GroupRegistry; Resolve has Authenticator,
--                   and Bits, Users and Cached the proofs
--   Net.Conn        crates/tak-net/src/conn.rs: the identifiers and states of a connection, and the
--                   subject of its certificate; Life has what many accepts give
--   Server.Firehose crates/tak-server/src/firehose.rs: read_loop and its drain of the buffer
--   Server.GroupPolicy  crates/tak-server/src/group_policy.rs: the check at load time, resolve_groups
--   Server.Pipeline crates/tak-server/src/pipeline.rs: dispatch_only, dispatch_and_persist. Laws
--                   has the metrics, Handled what one event does to bus, metrics and store
--   Server.Connection  crates/tak-server/src/firehose.rs: the groups and filter of a connection, its
--                   subscription, and the replay. Groups and Replay have the proofs
--   Store           crates/tak-store/src/lib.rs: try_insert_event and the writer's loop. Channel is the
--                   library's channel, Runs the steps of producers and writer, and Flushes, Invariant and
--                   Closed say what a flush keeps, what always holds, and when the writer returns
--   Plugin          crates/tak-plugin-host/src/host.rs and config.rs: Config, the Worker's loop, in
--                   Outbound what it sends, in Queues the publication to the queues of the workers
--   Mission         crates/tak-mission/src/lib.rs: the registry of subscription tokens, mint, lookup and
--                   release, with the proofs in Tokens
--   Vopr.Model      crates/tak-bus-vopr/src/model.rs: ModelSub, predict, and the operations of Model on
--                   one slot; Tracks is the refinement between the model and the bus, Channel and
--                   Slotwise have what a drain, a drop of the receiver and a drop of the handle do
--   Vopr.Runner     crates/tak-bus-vopr/src/runner.rs and op.rs: the operations on bus and model, in
--                   Compare the comparisons, in Loop pick_op and the run. Simulates says when the
--                   model is in step with the bus; Slots, Subscribe, Foretold, Dispatched and Snapshots
--                   have the operations one by one, and Agreement the run
--   Vopr.Minimize   crates/tak-bus-vopr/src/minimize.rs: the pass over the candidates
--
-- State and effects. The state of a component is a record, and an operation takes it and returns it.
-- The locks and atomics of the bus make each of its operations one step of the model; interleavings
-- inside an operation are not modelled. Counters wrap at their width (`% 2 ^ w`), and saturating ones
-- are a minimum. A hash map is an association list. A slice out of range is the result `panic`.
--
-- Validity of the bus. A bus is valid if each slot of the trie holds an id exactly as often as the
-- pattern of the id's entry names the slot, the table of live ids holds exactly the ids with an entry,
-- the counter of live subscriptions is the length of that table, and generations are below the next one.
-- Subscribing assumes that the next generation does not wrap at 64 bits.
--
-- Fuel. The drain of the read loop runs on the length of its buffer, since each round takes at least two
-- bytes off, and the walk over attributes on the length of the header, since each round that goes on
-- takes a byte of a key. Decimal digits run on 20 places and the hexadecimal ones on 16, which is enough
-- for 64 bits.
--
-- The simulator. Its random generator is a list of draws, one for each operation, and its state is the
-- bus, the model and the scratch. A receiver is the other side of the channel that the entry of the bus
-- has; when the entry is gone, the slot keeps the channel. The run assumes that the slab never fills up.
--
-- The writer. Producers and the writer's branches are steps of one relation, with a step also for the end
-- of all producers, which closes the channel. The outcome of a flush, one of three, is given to its step;
-- the pool keeps the transactions that began, with their rows. Rows of a batch for which none could begin
-- are dropped, as in the code, and the relation counts these failures. On a closed channel the loop is run
-- for more rounds than the channel has rows, which is enough, since each round but the last takes one.
--
-- Parameters. The slab is a map from keys to entries that inserts at a free key; a channel is a queue
-- with a capacity that its receiver empties from the front and may close (SlabLaws and ChannelLaws of
-- Bus.Platform, MpscLaws of Store.Channel, QueueLaws of Plugin). The texts of an f64 and of a time read
-- back (FormatLaws of Cot.Proto.Laws). The component of a plugin, the reader of XML events, the shuffle
-- of the minimizer, the decoder of protobuf messages, SHA-256, X.509 parsing and the TOML and XML readers
-- are arguments of the definitions that use them, with no law assumed but that the shuffle keeps its
-- elements. The R-tree has no law either: dispatch does not consult it.
--
-- Not modelled: SQL and the migrations of the store, and its queries; the bytes of recent messages;
-- of the missions all but their tokens; the other transports, TLS and the loops that accept and write; the
-- watch over dropped subscriptions; the replay of stored messages to plugins, and of the plugin host the scan of the
-- directory, the epoch ticker and the imports of a component; the command-line tools, load tests and
-- conformance scenarios. Of the simulator the log, the command line and the files of saved runs are left
-- out.
pub mod Bus
pub mod Common
pub mod Cot
pub mod Mission
pub mod Net
pub mod Plugin
pub mod Server
pub mod Store
pub mod Vopr
