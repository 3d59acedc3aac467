-- ===== src/Http2.antt =====
-- packages/bayserver-docker-http/bayserver_docker_http/h2: HTTP/2 frames and HPACK.
pub mod Huffman
pub mod HpackInt
pub mod HeaderTable
pub mod HeaderBlock
pub mod HeaderCoding
pub mod Unpacker
pub mod Flags
pub mod Command
pub mod CommandUnpacker
