-- ===== src/Examples.antt =====
-- Tests of the model, and the theorems at concrete inputs.
pub mod Fixtures
pub mod Parsing
pub mod Configuring
pub mod Admitting
pub mod Peers
pub mod Commanding
pub mod Patching
pub mod Serving
pub mod Injected
pub mod Installing
pub mod Node
pub mod Starting
pub mod Mains
pub mod Whole
pub mod Again
pub mod Answering
pub mod Printing
pub mod Namespaces
