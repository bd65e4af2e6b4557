-- ===== src/Uploader.antt =====
-- internal/uploader: the uploader's state, its answers to the backend, the key rotation, and the
-- flush of the queue. From Draining on, the modules hold the proofs.
pub mod State
pub mod Auth
pub mod Heartbeat
pub mod Rotation
pub mod Backoff
pub mod Flush
pub mod Draining
pub mod Waiting
pub mod Lanes
pub mod MetricsLane
pub mod Recovery
pub mod Rotating
pub mod Widening
pub mod KeySync
pub mod FlushSync
pub mod History
