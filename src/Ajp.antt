-- ===== src/Ajp.antt =====
-- bayserver_docker_ajp: the Apache JServ Protocol.
pub mod Packet
pub mod RoundTrip
pub mod Commands
pub mod Unpacker
