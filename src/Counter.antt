-- ===== src/Counter.antt =====
-- src/fuxi/base/counter.h and counter.cc: the counters that each thread updates in a slot of its own
-- and that a reader collects over all threads. A word of 64 bits is a number below 2^64, and a signed
-- one is its two's complement. The slots are those of the threads below `threads`, in the order in
-- which `for_each` visits them; a slot is read and written whole.
pub mod Adder
pub mod Summer
pub mod Maxer
pub mod Sampler
pub mod Reservoir
