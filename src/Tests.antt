-- ===== src/Tests.antt =====
-- Runs of the models at concrete inputs.
pub mod Trees
pub mod Files
pub mod Tables
pub mod Queues
pub mod Loading
pub mod Statements
pub mod Requests
pub mod Scripts
pub mod Clients
