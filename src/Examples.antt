-- ===== src/Examples.antt =====
-- The theorems at concrete inputs, and the test data for them.
mod Log
mod Daemon
mod Spawning
mod Users
mod Clients
mod Requests
mod Events
mod Logins
mod Console
mod Greeting
mod Programs
mod Seats
mod Tools
mod Start
mod Sync
