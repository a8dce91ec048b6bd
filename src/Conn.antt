-- ===== src/Conn.antt =====
-- conn.go and conn_ws.go: what a connection has received (Inbound), the same for a TCP and a
-- websocket connection (Ws), what a TCP connection sends (Tcp), over the system that it runs on (Host),
-- what it does at an event (Events), and what any goroutine may call (Api).
pub mod Inbound
pub mod Host
pub mod Tcp
pub mod Events
pub mod Api
pub mod Framing
pub mod Sample
pub mod Handler
pub mod Ws
pub mod Examples
