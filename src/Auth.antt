-- ===== src/Auth.antt =====
-- contexts/auth/internal/: users, the services of the domain, and the use cases over them.
pub mod User
pub mod Name
pub mod Repository
pub mod Services
pub mod UseCases
pub mod Middleware
pub mod Controllers
pub mod Impersonation
pub mod SignedIn
pub mod SessionStore
pub mod Stored
pub mod Guards
pub mod Access
pub mod Flows
pub mod Pages
pub mod Listing
