-- ===== src/ControlPlane.antt =====
-- backend/internal/controlplane: the task and run tables of the control plane (`domain/models.go`,
-- `store/repositories.go`) and the part of `engine/manager.go` that writes them. A time is a number of
-- nanoseconds, 0 the zero time. The database itself is taken to answer: a failing connection, a
-- canceled context and a row that cannot be scanned are left out. The connections are known by id.
pub mod Domain
pub mod Rows
pub mod Store
pub mod Calls
pub mod Changes
pub mod Bounded
pub mod Final
pub mod Moves
pub mod Stale
pub mod Engine
mod Tests
