-- ===== src/App.antt =====
-- app/: the handlers of use cases and the decorators that wrap them.
pub mod Handler
pub mod Instrumented
pub mod Guarded
pub mod Nesting
pub mod Guarantees
