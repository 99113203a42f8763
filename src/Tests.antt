-- ===== src/Tests.antt =====
-- The theorems at concrete inputs: rooms of integers in thousandths.
mod Data
mod Worlds
mod Hunts
mod Lives
mod Services
mod Streams
mod Queues
mod Maps
mod Rooms
mod Boards
mod Audiences
mod Cells
mod Messages
