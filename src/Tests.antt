-- ===== src/Tests.antt =====
-- Test runs of the definitions, and the theorems at concrete inputs.
pub mod Repository
pub mod Setting
pub mod Auth
pub mod Jobs
pub mod Pages
pub mod Tenants
pub mod Decorators
pub mod Pruning
pub mod Running
pub mod Queue
pub mod Worker
pub mod History
pub mod Sessions
pub mod Builder
pub mod Signin
pub mod Rendering
pub mod Cookies
pub mod Logs
pub mod Tooling
