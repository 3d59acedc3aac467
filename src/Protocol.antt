-- ===== src/Protocol.antt =====
-- packages/bayserver-core/bayserver_core/protocol: packets, the accessors that read and write them,
-- and bayserver_core/util/simple_buffer.py.
pub mod Packet
pub mod Accessor
pub mod SimpleBuffer
pub mod Pump
pub mod Receiver
