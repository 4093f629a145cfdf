-- ===== src/Tests.antt =====
-- Runs of the definitions, and the theorems at concrete inputs, by the part of the server that they
-- are about.
mod Runs
mod Pane
mod Locks
mod Rows
mod Logs
mod Values
mod Servers
mod Hosts
mod Tools
mod Starts
