-- ===== src/Tests.antt =====
-- Concrete runs of the theorems of the other modules.
mod Domain
mod Config
mod Records
mod Network
mod Swarms
mod Requests
mod Turns
mod Flight
mod Founded
mod Lines
mod Start
mod Update
