-- ===== src/Connect.antt =====
-- The package connect: a worker that receives invocations over a WebSocket connection.
pub mod Buffer
pub mod WorkerPool
pub mod RunLoop
pub mod Handshake
pub mod Invoke
pub mod Reading
pub mod Lifetime
pub mod Setup
pub mod Gateways
pub mod Heartbeats
pub mod Delivery
