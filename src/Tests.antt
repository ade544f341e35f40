-- ===== src/Tests.antt =====
-- Runs of the model at concrete inputs, with crates that behave as documented.
mod Streams
mod Numbers
mod Crates
mod RawBocs
mod Bits
mod Trips
mod Cells
mod Addresses
mod BagsOfCells
mod Messages
mod Caches
mod Slices
