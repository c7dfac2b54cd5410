-- ===== src/Handler.antt =====
-- handler.go: the handler, which serves registered functions over HTTP. Its lock makes the reading
-- of the functions and their registration single steps.
pub mod Core
pub mod Invoke
pub mod Trust
pub mod Inspect
pub mod Configs
pub mod Fetch
pub mod Sync
pub mod Register
pub mod Serve
pub mod Worker
pub mod Tests
