-- ===== src/Util.antt =====
-- bayserver_core/util: what the protocols and the agents share.
pub mod ObjectStore
pub mod StringUtil
