-- ===== src/Tests.antt =====
-- Concrete inputs for the theorems, on a stream that plays a script.
pub mod Script
pub mod Client
pub mod Wire
pub mod Meeting
pub mod Example
pub mod Peers
pub mod Program
