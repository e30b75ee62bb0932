-- ===== src/Tests.antt =====
-- Concrete runs of the modelled code, one for each theorem that takes arguments.
mod Fixtures
mod Collection
mod Identity
mod Lock
mod Updates
mod Holder
mod Claim
mod Browser
mod Agent
mod Storage
mod Desktop
mod Restarts
mod Loop
mod Machine
mod Linux
