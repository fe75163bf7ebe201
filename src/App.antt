-- ===== src/App.antt =====
-- cmd/gophermart/di and cmd/gophermart/main.go: the routes, and how the application starts and stops.
pub mod Mux
pub mod Routing
pub mod Access
pub mod Lifecycle
pub mod Shutdown
pub mod Progress
pub mod Abandoned
pub mod Startup
pub mod Started
mod Tests
