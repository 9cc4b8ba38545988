-- ===== src/Examples.antt =====
-- Concrete parameters, and the properties at concrete inputs.
mod Parts
mod Data
mod Witnesses
mod Batches
mod Hami
mod Mig
mod Mps
mod Host
mod Queue
