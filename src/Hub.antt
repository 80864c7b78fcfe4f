-- ===== src/Hub.antt =====
-- internal/hub/hub.go and internal/hub/control.go: the orchestrator. Every function is the code
-- between taking and releasing the hub's lock, or the whole handler, as a step from state to state.
pub mod State
pub mod Push
pub mod Session
pub mod Status
pub mod Control
pub mod Removal
pub mod Admin
pub mod Requests
pub mod Enroll
pub mod Registered
pub mod Pending
pub mod Replies
pub mod Lifetime
pub mod Throttle
pub mod Created
pub mod Limiter
pub mod Revoked
pub mod Handshakes
pub mod Admitted
mod Tests
