-- ===== src/Lib.antt =====
-- Verification of natsmqtt5, an MQTT 5 broker over NATS.
--
-- The program. `packet` reads and writes MQTT 5 Control Packets: a `reader` and a `writer` of
-- primitive values (packet/codec.go), the properties that most packets carry (packet/properties.go),
-- one decoder and one `encode` method per packet type, and `Read`, `Encode` and `EncodedLen` for
-- whole packets (packet/packet.go). `topic` decides which Topic Names and Topic Filters are valid,
-- matches them (topic/topic.go), and maps them to NATS subjects and back (topic/subject.go). The
-- broker's files at the root of the repository serve connections on top of both. Of these are
-- modelled: outalias.go, the Topic Aliases that the broker sets on one connection, over the PUBLISH
-- packets of `packet`; cursor.go, the replay cursor of a session over the stream of queued messages,
-- with what session.go does to it; and of session.go and publish.go the exchanges of QoS 1 and 2
-- messages: identifiers, acknowledgements and the send quota.
--
-- Where what is.
--   Prelude/         numbers, Boolean tests, texts as byte lists, list lemmas, masks as arithmetic
--   Packet/Types     packet/types.go: `Type`, `reservedFlags`, `QoS.Valid`, `ReasonCode.IsError`
--   Packet/Result    the (value, error) pairs, by the kind of the error; the texts are dropped
--   Packet/Utf8      `validateUTF8`, with `utf8.ValidString` and `range` over a string
--   Packet/Reader    `reader`: its state is the list of the unread bytes; a method is a function from
--                    it to a result and what is left
--   Packet/Writer    `writer`: a method is the bytes that it appends
--   Packet/Properties, and Read and Write below it: the table `propContexts`, the struct `Properties`,
--                    `readProperties`, `readProperty` and `Properties.encode`
--   Packet/Model     the packet structs and the interface `Packet`
--   Packet/Decode/   `decodeConnect`, `decodePublish`, and so on, one function per decoder; in Wire
--                    `readRemainingLength`, `decode` and `Read`
--   Packet/Encode/   the `encode` methods; in Wire `Encode` and `EncodedLen`
--   Packet/RoundTrip/, Packet/Progress/   what is proved of them: decoders against encoders, and that
--                    the decoders end
--   Topic/Strings    what is used of Go's package strings
--   Topic/Validate   `ValidateName`, `ValidateFilter`, `SplitShared` and what they call
--   Topic/Match      `Match` and `MatchAny`; in Match/Levels the levels as a relation
--   Topic/Subject    topic/subject.go
--   Topic/RoundTrip, Literal, Tokens, Prefix, Grammar, Parts, Levelwise, Delivery   what is proved of the
--                    package topic; Delivery says which subjects NATS delivers for one with wildcards,
--                    as NATS documents it: `*` is any one token, a last `>` one token or more
--   Alias/Table      outalias.go: the table `outAliases`, its ledger, `encode` and `aliasPublish`
--   Alias/Entries, Alias/Agreement   the table against what the client was told
--   Dict             Go's maps; Dict/Count counts entries
--   Cursor/State, Holes, Deliver, Scan, Restart, Replay   cursor.go, `noteDelivered` and `lateCopy` of
--                    session.go: the cursor as a record, one function for each operation under the locks
--   Cursor/Run       every order of the operations as a step relation; Cursor/Fit the bounds of the
--                    holes; Cursor/Ask the scans that are asked for
--   Cursor/Accounts  what the cursor accounts for while the subscriptions stay as they are: not across a
--                    replay, a restart or a SUBSCRIBE, which change what is owed or begin the account
--   Session/State, Identifiers, Inflight, Received, Attach, Handlers   session.go's exchanges, and
--                    `handlePuback`, `handlePubrec`, `handlePubrel` and `handlePubcomp` of publish.go
--   Session/Fresh, Order, Once, Quota, Acks, Slots   what is proved of them
--   Message/Header, Decimal, Nats   message.go: the escapes, `toNATS` and `fromNATS`; the headers of
--                    nats.go are the record `Headers`, of what its documentation says
--   Message/RoundTrip, Carried, Return, Forwarded   what is proved of them; Message/Plain an instance
--   Delivery/Queued  `deliverQueuedOwed` of offline.go, `deliveryFor` of subscribe.go and `owedBy` of
--                    cursor.go, over the modules of Topic and Message
--   Delivery/Expiry  expiry.go, and the interval of a PUBLISH sent again by retransmit.go
--   Delivery/Owed, Copies, Whole   what is proved of them: `owedBy` against the delivery, and a message
--                    from its PUBLISH to its deliveries
--   Packet/Tests, Topic/Tests, and so on   concrete runs, and the theorems at concrete inputs
--
-- How the code corresponds. A Go string or byte slice is the list of its bytes, a pointer to a scalar
-- an option, an int a natural number: the values that occur stay below 2 ^ 28. The unsigned types
-- keep their width where they are written: a writer puts `v / 2 ^ 8 % 2 ^ 8` for a byte of `v`.
-- Shifted bytes that share no bit are added where the source joins them with `|`; masks that are not
-- such are `bit_and` and `bit_or`. The stream of `Read` is the list of the bytes that it will deliver
-- before it ends, so an error of the transport other than its end is not modelled. The functions of
-- topic that return an error return one that wraps `ErrInvalid`; they are tests here, or options.
-- `Name` and `NameEscaped` functions are one function with a Boolean. The two sums of the alias table's
-- ledger, ints that may fall, are differences of two natural numbers.
--
-- Fuel. The loops over the bytes of a body (`readProperties`, SUBSCRIBE, UNSUBSCRIBE) have a round of
-- fuel for each byte, and each round takes one at least. `appendVarByteInt` has ten rounds, enough for
-- any int; a value that MQTT allows takes four. `out_of_fuel` is the model's own error.
--
-- Locks and messages. What the code does under the mutex of a session is one function of the session;
-- goroutines that run between are other steps of Cursor/Run. A scan of the stream reads without the
-- lock: what it read is an argument of the step that applies it. A pointer to a connection or a
-- subscription is its identity, a number; a connection's atomic counters are fields. A loop over a map
-- follows the order of the list that stands for it. Times are numbers, and the limits that are
-- variables of the package are a parameter.
--
-- Headers are a map here, as `Set` and `Get` see them; what a NATS connection does with a value on the
-- wire is not modelled, nor are the numbers of headers that Itoa cannot write in twenty digits.
--
-- Not modelled. The rest of the broker (the rest of attaching, subscribing, retained messages, wills,
-- the NATS streams, the queue of live deliveries, what a replay or a restart of the cursor reads and
-- sends), the text of errors, `String` methods, and `Write`, which is `Encode` and one call of the
-- transport.
pub mod Prelude
pub mod Packet
pub mod Topic
pub mod Alias
pub mod Dict
pub mod Cursor
pub mod Session
pub mod Message
pub mod Delivery
