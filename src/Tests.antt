-- ===== src/Tests.antt =====
-- The tests of the definitions, and the theorems applied at concrete inputs.
mod Entry
mod Sketch
mod TimerWheel
mod Cache
mod Maintenance
mod Deque
mod Housekeeper
mod Invalidator
mod Get
mod Client
mod Initializer
mod KeyLock
