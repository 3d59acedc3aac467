-- ===== src/Tests.antt =====
-- The modelled code at concrete inputs.
mod Fcgi
mod Http2
mod Util
mod Protocol
mod Tour
mod Messages
