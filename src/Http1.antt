-- ===== src/Http1.antt =====
-- packages/bayserver-docker-http/bayserver_docker_http/h1: HTTP/1 messages.
pub mod Unpacker
pub mod CmdHeader
