-- ===== src/Lib.antt =====
-- libmqtt, an MQTT client library in Go for the versions 3.1.1 and 5: what stands between a packet
-- and its bytes, the ids that packets go under, the stores for packets under way, the session of a
-- connection, and the options and the connections of a client.
--
-- The parts and how they meet:
-- - Util: util.go. Util/Bytes has big-endian integers and length-prefixed texts (`putUint16`,
--   `encodeBytesWithLen`, `getBinaryData`), Util/VarInt the variable byte integer (`varIntBytes`,
--   `getRemainLength`), Util/RawProps and Util/UserData the property blocks of version 5
--   (`getRawProps`, `getUserProps`, and `UserProps` of libmqtt.go), Util/IdGenerator `idGenerator`,
--   Util/Names the maps from a text.
-- - Keys: the property keys of libmqtt.go.
-- - Props: `propertySet` of libmqtt.go in Props/Defs, and the `props` and `setProps` methods of the
--   packets in Props/Conn (pkt_conn.go, pkt_auth.go), Props/Pub (pkt_pub.go) and Props/Sub
--   (pkt_sub.go).
-- - Packets: the packet types of the pkt_*.go files in Packets/Types, `BasePacket.write` and
--   `writeV5` of libmqtt.go in Packets/Writer, every `WriteTo` and `Encode` (encoder.go) in
--   Packets/Write, the `clone` methods of pkt_conn.go in Packets/Clone. They encode with Util and
--   Props. The four acknowledgements of PUBLISH are the same but for their type, and so are one
--   record, with one function for each method.
-- - Decoder: decoder.go, `Decode` in Decoder, `decodeV311Packet` and `decodeV5Packet` in Decoder/V311
--   and Decoder/V5, with the loops that they share in Decoder/Reads.
-- - Persist: persist.go, `PersistStrategy` in Persist/Strategy, `memPersist` in Persist/Mem, and the
--   interface `PersistMethod` in Persist/Method, with the two methods that fill it. `filePersist` is
--   in Persist/File, over a record of the file operations that it calls; it encodes with Packets and
--   reads back with Decoder.
-- - Session: client_conn.go and the messages of msg.go. The rounds of `logic` and of `handleSend`
--   change a record of the id generator, the packets kept, and what was put on each channel; they
--   take the persist method as a parameter. Session/Sender has the whole loop of `handleSend`, over a
--   list of what wakes it. Session/Logic has the loop of `logic`, Session/Receive `handleNetRecv`,
--   over the decoder, and Session/Client `Publish`, `Subscribe` and `Unsubscribe` of client_async.go,
--   whose messages are objects behind pointers.
-- - Client: the client and the options of its connections (client_async.go, client_conn_options.go),
--   each option of client_options.go and client_connector.go in Client/Options, `NewClient`,
--   `ConnectServer` and `Connect` in Client/Settings, and `connect` in Client/Connect, one attempt as
--   a function of what it meets: the dial, the writer, the reply, and where the client is closing.
--   Client/Connect/Table has the entry of `connectedServers` that the attempts of one call of
--   `ConnectServer` store and delete, in any order of what happens to them.
--   Client/Dial has `tcpConnect` and Client/WebSocket `wsConn` of client_connector.go, over what the
--   network gives.
--   Client/Notices has `handleMsg` (msg.go) and the setters of handler.go, Client/Log the levels of
--   log.go, Client/Life `Disconnect` and `Destroy`. `World` holds what options take from elsewhere,
--   files and certificates among it. A connect packet is kept by its place, because options and
--   connections share it.
-- - Routing: the routers of router.go behind `TopicRouter`, with `HandleTopic` and `handleTopicMsg`
--   of client_async.go. A call of a handler is a value, among those of the worker that makes
--   it. Regular expressions are parameters.
-- - Bindings: c/options_c.go and c/libmqtt_c.go, the tables of options and clients, each option in
--   Bindings/Options, the functions that act on a client in Bindings/Calls, and the calls of C handlers
--   in Bindings/Callbacks.
-- - Console: the command line client of cmd/libmqtt. Console/Words has `strings.Split` and
--   `strconv.Atoi`, Console/Conn `execConn` and `newClient` over the options of Client, and
--   Console/Commands the other commands with `execCmd` and the loop of `main`. What a command prints
--   and its calls of the client are values.
--
-- Values: a byte slice and a string are the list of their bytes, a number the native natural with its
-- wrap-around written out, a pointer that may be nil an Option. A map is a list of its entries, with
-- one for a key, in the order in which `range` meets them. A result is a value, an error value, a
-- run-time panic, or `stuck` where a loop runs out of fuel.
--
-- Fuel: `var_int_loop` has four rounds, enough up to the largest message of 2^28 - 1. The loop of
-- `getRawProps` has the length of the block, the loops of the decoder and of `getUserProps` the
-- length of what is left (one more for the last), and each of their rounds takes a byte at least. The
-- loop of `handleNetRecv` has as many rounds as it is given, one for a packet and one for the end.
-- The search of `idGenerator.next` has the 65535 rounds of the source. `worker` of the file store may
-- need any number. The search of `newClientOptions` has one round more than there are clients.
--
-- A writer is the bytes that it took and a function that says when it refuses more; a buffer never
-- does. A reader is the bytes that are left.
--
-- Not modelled: the packages net, tls and websocket below the connectors, the text of a log,
-- `Wait`, `keepalive`, which is made of timers, and the Java binding. fuzz.go and examples only
-- call what is modelled. Locks and atomic counters are left out: the calls of the id generator
-- and of the stores run one at a time, and so do the rounds of a session, though `logic` and
-- `handleSend` are two goroutines, and those of the file store's `worker`. The shared ping
-- packets have the version 0 that they start with. A call that waits for room in a channel
-- returns. Receivers are not nil. The decimal digits of a key and `strings.ToLower` are
-- parameters. What the persist method of a session does with a packet that is deleted is a
-- hypothesis where it matters; `filePersist` does not meet it.
pub mod Prelude
pub mod Keys
pub mod Util
pub mod Props
pub mod Packets
pub mod Decoder
pub mod Persist
pub mod Session
pub mod Client
pub mod Routing
pub mod Bindings
pub mod Console
pub mod Tests
