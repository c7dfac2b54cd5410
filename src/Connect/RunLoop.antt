-- ===== src/Connect/RunLoop.antt =====
-- connect/handler.go: the run loop of connectHandler.Connect, which starts connections and reacts
-- to their reports. An event is what one round of its `select` receives; the round's sends, its
-- flush, its wait and the connection that it starts are its actions.
pub mod Defs
pub mod Signals
pub mod Attempts
pub mod Keys
mod Tests
