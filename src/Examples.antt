-- ===== src/Examples.antt =====
-- The theorems at concrete inputs, and tests.
mod Actors
mod Connections
mod Requests
mod Devices
mod Sockets
mod Packets
mod Tables
mod Routing
mod Peers
mod Orchestration
mod Sessions
mod Names
mod Tokens
mod Settings
mod Control
mod Routes
mod Datagrams
mod Sources
mod Interfaces
