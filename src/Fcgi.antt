-- ===== src/Fcgi.antt =====
-- bayserver_docker_fcgi: the FastCGI protocol.
pub mod Command
pub mod Unpacker
