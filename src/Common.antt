-- ===== src/Common.antt =====
-- The module common/: errors and their gRPC codes, injected faults, and the JSON error answer.
pub mod StatusCode
pub mod AppError
pub mod Action
pub mod Grpc
pub mod Query
pub mod Wire
pub mod Http
pub mod Process
pub mod Chaos
