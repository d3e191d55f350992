-- ===== src/Tests.antt =====
-- Tests of the model on concrete inputs, with concrete answers of Go's library and of the
-- operating system.
mod Library
mod Contracts
mod Decoders
mod Names
mod Databases
mod Plans
mod Store
mod Inventories
mod Jobs
