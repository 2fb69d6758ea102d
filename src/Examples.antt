-- ===== src/Examples.antt =====
-- Runs at concrete inputs.
mod Data
mod Pools
mod Sending
mod Receiving
mod Connecting
mod Meeting
mod Working
mod Starting
mod Polling
mod Joining
mod Crossing
