-- ===== src/Tests.antt =====
-- Runs of the models at concrete inputs.
mod Orders
mod Money
mod Stock
mod Rules
mod Moves
