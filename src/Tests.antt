-- ===== src/Tests.antt =====
-- Concrete inputs at which the theorems apply, by the part of the program that they exercise.
mod Rings
mod Pools
mod Extents
mod Tables
mod Sizes
mod Counters
mod Queues
mod Ids
mod Vectors
mod Events
mod Pages
mod Buffers
