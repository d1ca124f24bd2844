-- ===== src/Middleware.antt =====
-- middleware: wrappers of an application.
pub mod ProxyFix
pub mod Dispatcher
