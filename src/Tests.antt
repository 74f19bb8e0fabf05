-- ===== src/Tests.antt =====
-- Examples: the theorems at concrete inputs.
mod Hello
mod Logs
mod Names
mod Dns
mod Unblock
mod Firewall
mod Conn
mod Learning
mod Streams
