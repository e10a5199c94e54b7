-- ===== src/Examples.antt =====
-- Runs of the model on concrete data, by part of the program.
mod Stores
mod Records
mod Coordinators
mod Sagas
mod Upkeep
