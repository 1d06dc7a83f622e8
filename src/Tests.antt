-- ===== src/Tests.antt =====
-- Runs on concrete inputs, and an instance of each theorem that has a hypothesis or a variable.
mod Quic
mod Sni
mod Routing
mod Udp
mod Records
mod State
mod Router
mod Loading
mod Handshake
mod Proxying
mod Accepting
mod LoadingTcp
