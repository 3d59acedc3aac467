-- ===== src/Lib.antt =====
-- BayServer, a web server in Python: the bytes of its protocols. The directories are those of
-- packages/.
--
-- A connection's bytes arrive in pieces at a packet unpacker. It collects the bytes of a packet in a
-- SimpleBuffer, rents a packet from a store, fills it through accessors, and hands it to a command
-- unpacker, whose answer says whether the connection goes on. A command reads its fields through the
-- data accessor of the packet, and writes them through it when it is packed, with the header last.
-- A tour is one request with its response. A ship, one side of a connection, rents it from the store of
-- its agent, passes the content of the request to the handler of a town, and returns it at the end; the
-- flow control of request and response stops and resumes the side that posts.
--
-- - Protocol/Packet and Protocol/Accessor: Packet and PacketPartAccessor of
--   bayserver-core/bayserver_core/protocol. An accessor holds its packet, and an operation returns the
--   accessor that it leaves. Accessor/Append, Read and Overwrite say what writes at the end, reads and
--   writes into a header do, and join such operations; Accessor/Fill is a packet that gets a header
--   and a body.
-- - Protocol/SimpleBuffer: bayserver_core/util/simple_buffer.py.
-- - Protocol/Pump: the loop that every unpacker runs, as a step function on a state and the bytes that
--   are left, with the laws under which the pieces of a stream do not matter. Protocol/Receiver: the
--   interface to the command unpacker, which is a parameter, with its state.
-- - Util/ObjectStore: bayserver_core/util/object_store.py, the pool under the packet store.
--   Util/StringUtil: from_bytes of bayserver_core/util/string_util.py and Python's decoders under it.
-- - Http2: bayserver-docker-http/bayserver_docker_http/h2. Huffman (HTree and its table), HpackInt
--   (H2DataAccessor of h2_packet.py), HeaderTable, HeaderBlock, HeaderCoding (builder and analyzer),
--   Unpacker (h2_packet_unpacker.py), Flags (h2_flags.py), Command (h2_command.py, the header of a frame
--   in h2_packet.py and the commands under command/) and CommandUnpacker (h2_command_unpacker.py).
-- - Fcgi: bayserver-docker-fcgi/bayserver_docker_fcgi. Command (fcg_packet.py, fcg_command.py and the
--   commands BeginRequest, EndRequest and Params) and Unpacker (fcg_packet_unpacker.py).
-- - Ajp: bayserver-docker-ajp/bayserver_docker_ajp. Packet (ajp_packet.py and ajp_command.py),
--   Commands (EndResponse, GetBodyChunk and SendBodyChunk) and Unpacker (ajp_packet_unpacker.py).
-- - Http1: bayserver-docker-http/bayserver_docker_http/h1. Unpacker (h1_packet_unpacker.py) and
--   CmdHeader (command/cmd_header.py).
-- - Tour: bayserver-core/bayserver_core/tour. Flow (the counters of tour_req.py and tour_res.py), State
--   (tour.py), Request (tour_req.py), Response (tour_res.py) and Store (tour_store.py); Ship is
--   bayserver_core/common/inbound_ship.py. A method that changes objects is a function from their state
--   to the state it leaves and its answer or exception (Prelude/Acts). What a tour calls, the content
--   handler of a town or the ship, is a record of such functions over an unknown world and the tour
--   itself, so that it may call the tour again.
-- - Tests: runs and instances at concrete inputs.
--
-- Numbers are natural numbers, as Python's integers do not overflow; masks and shifts are written out.
-- A byte string is a list of numbers, a text the list of its code points. An exception is an error
-- value; what a handler or an unpacker has changed before it stays changed.
--
-- Loops on fuel: an unpacker's loop gets two rounds for each byte and two more, since a round takes a
-- byte or hands over a packet; `put` of a SimpleBuffer gets one round more than the length that must
-- fit, as the capacity doubles; an HPACK integer as many rounds as its value and as bytes that are
-- left, and Params, SETTINGS and HEADERS one more than the bytes of data; the content of a response as
-- many as its bytes and one. The theorems below include that this is enough. The loop over the content
-- in HTTP/1 gets one round more than the bytes, of which each round takes one at least.
--
-- Not modelled: sockets, threads, files, configuration and logging, which are input and output; the
-- protocol handlers that join the command unpackers to the tours, which are the handler parameter; the
-- headers of a response, and HTTP/3. Locks are left out: an operation runs alone.
pub mod Prelude
pub mod Protocol
pub mod Util
pub mod Http1
pub mod Http2
pub mod Fcgi
pub mod Ajp
pub mod Tour
pub mod Tests
