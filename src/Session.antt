-- ===== src/Session.antt =====
-- src/session-manager.js: the store of sealed sessions and the manager over it. The cipher, the
-- compression and JSON are a parameter. Time is an argument of each call.
pub mod Store
pub mod Manager
mod Tests
