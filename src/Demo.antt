-- ===== src/Demo.antt =====
-- src/main.cpp: the demonstration server's controllers, its middlewares (Middlewares) and its rate
-- limiter (RateLimit), and what is proved of them (Access, Admission).
pub mod UserController
pub mod ProductController
pub mod Middlewares
pub mod RateLimit
pub mod Admission
pub mod Windows
pub mod Access
pub mod Missing
pub mod Handshake
pub mod Server
