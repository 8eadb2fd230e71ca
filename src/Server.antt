-- ===== src/Server.antt =====
-- The server: its connections, the handler of requests, the loop, and the program around them.
pub mod Connection
pub mod Handler
pub mod Loop
pub mod Start
pub mod Main
