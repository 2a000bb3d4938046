-- ===== src/Lib.antt =====
-- Verification of libyimmo, a C library for asynchronous network servers: a core (memory, buckets,
-- queues, tries, text utilities, the connection and server loop), and protocols on top of it
-- (HTTP, WebSockets, MQTT) that the server drives by callbacks.
--
-- A buffer is the list of its bytes, a byte a number below 256; integers are natural numbers with
-- their wrap-around written out. Memory that the process allocates is the parameter `Platform`:
-- an allocation is refused, or gives a block of the size asked for with unknown contents.
--
-- Parts:
-- Base: lists by native numbers, Boolean tests, the bits of bytes and words; `Status` is
-- `ymo_status_t`.
-- Util: src/core/ymo_util.c and include/ymo_util.h. Util.Utf8 is `ymo_check_utf8`: one round of
-- its loop is `read_byte`, and `scan` is the loop. Util.Utf8.Grammar is RFC 3629's grammar.
-- Util.Base64 is `ymo_base64_encode`.
-- Ws: src/protocol/ws. Ws.Session has the frame and session state, `ymo_ws_session_alloc_frame`
-- and `gen_ws_msg_hdr` (ymo_ws_session.c); Ws.Header and Ws.Parse have the parse functions, and
-- Ws.Unmask `unmask_payload` (ymo_ws_parse.c); `parse_loop` of Ws.Parse is the loop of
-- `ymo_proto_ws_read` (ymo_proto_ws.c). Ws.Conn is the rest of that callback with the answers, the
-- close handshake and sending; the user's callback and the event loop's write watcher are its
-- parameter `Server`. Ws.Client is the other side of the connection: frames as
-- a client masks them.
--
-- The loop of the WebSocket parser runs on fuel, and `proto_read` gives it the number of the bytes:
-- each round that goes on consumes one. The walk through a header table runs on fuel for its nodes.
-- In Ws.Conn.Buffering the block of a message is a list that grows where the code writes past it.
--
-- Http.HeaderTable is src/protocol/http/ymo_http_hdr_table.c and .h: the hash of a field's name and
-- the table's chains, a node's own buffer being NULL, a block or an address not to be read.
--
-- The request parser is src/protocol/http/ymo_http_parse.c on the exchange of ymo_http_exchange.c,
-- which Http.Exchange has, with the receive buffer as the list of the bytes before `recv_current`
-- and its pointers as offsets. Http.RequestLine is `ymo_parse_http_request_line`, Http.Headers
-- `ymo_parse_http_crlf` and `ymo_parse_http_headers`, with the two inner parsers and the field
-- switch as `name_loop`, `value_loop` and `field_of`, and Http.Body `ymo_parse_http_body`. The loops
-- over lines and names are structural; those of the headers and of the body run on fuel for every
-- byte, the body's with two rounds more. `strtol` is the parameter `Strtol`, and the user's
-- callback for a body the parameter `body_cb`. A read behind the buffer of a body is `overrun`.
-- Http.Read is the loop of `ymo_proto_http_read` (ymo_proto_http.c) over these functions, on fuel for
-- its rounds, and `start_body` what it does where the headers are complete; Http.Read.Fields,
-- Http.Read.Head and Http.Read.Content put the parts together.
-- Http.Session is the chain of a session's responses (ymo_http_session.c), `ymo_http_response_issue`
-- (ymo_http_response.c) and `ymo_proto_http_handle_error`, with the start of the read callback.
-- Http.Response.Start is the start of a response and its header fields (ymo_http_response.c), where
-- an access outside of a buffer is `stray`; the walk over the fields runs on fuel for the nodes, and
-- the space is the default of YMO_HTTP_SEND_BUF_SIZE, 1024. Http.Response is the body of a response,
-- in chunks or not, and what `ymo_proto_http_write` adds to the send buffer;
-- Http.Response.RoundTrip puts it through Http.Body. Http.Write is that callback as a whole, down to
-- the wire, with as many rounds of sending as its caller says and with the text of a response's
-- status as a parameter.
-- Util.Case has the letter case and the comparison that the header fields are read by.
--
-- Core.Bucket has chains of buckets (src/core/ymo_bucket.c) as lists of what they hold and how much
-- of it was sent, and the two functions of src/core/ymo_net.c that send them. `goto do_send` runs on
-- fuel; `sendmsg` and `SSL_write_ex` are parameters with the wire as a list of bytes, and what is
-- assumed of them stands in `Sends`, `Writes` and `Progress`.
-- Core.Queue has the doubly linked queue (src/core/ymo_queue.c) on nodes at addresses; a result
-- `none` is an access through NULL or to a freed node. Core.Queue.Heap says which list it holds.
-- Core.Blalloc is the block allocator (src/core/ymo_blalloc.c), on addresses.
-- Core.Conn has the states of a connection and its end (src/core/ymo_conn.c); the reading of what is
-- left runs on fuel, and the socket calls are its parameter `Calls`.
-- Mqtt is src/protocol/mqtt: the session and what it sends (ymo_mqtt_session.c), the macros that
-- read a message (Mqtt.Reader, a reader being a function on the rest of the block), the parse
-- functions (ymo_mqtt_parse.c) and the read and write callbacks (ymo_proto_mqtt.c). The loop of the
-- read callback runs on fuel for its bytes and two rounds more.
--
-- Core.Server is the life of a server (src/core/ymo_server.c): its connections as a count, accepting
-- one, the end of one, the write callback and the graceful stop. Core.Server.Count has the sequences
-- of these steps as a relation.
--
-- Not modelled: logging and tracing; the address of the bytes beyond what alignment needs; the
-- creation of buckets failing; sockets, libev, TLS but for its sending, and the configuration files;
-- the callbacks of an HTTP session, the reasons of its statuses and its upgrades; the server's read
-- callback and the setting up of its socket; the trie; and the WSGI server, which is glue to the
-- Python interpreter.
pub mod Base
pub mod Core
pub mod Http
pub mod Mqtt
pub mod Util
pub mod Ws
