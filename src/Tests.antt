-- ===== src/Tests.antt =====
-- Concrete inputs: two lists, a map of two entries, a gateway with one device, and a toy cipher, with
-- the theorems applied to them.
mod Lists
mod Maps
mod Radio
mod Rounds
mod Life
mod Datagrams
mod Polls
mod Browsers
mod Startup
mod Histories
mod Checks
mod Accepts
mod Devices
