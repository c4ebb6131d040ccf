-- ===== src/Tests.antt =====
-- Runs of the model at concrete inputs, one module for each component.
mod Modes
mod Events
mod Validator
mod Party
mod Memory
mod Hunt
mod Social
mod Controllers
mod Driver
mod Entities
mod PublicState
mod Protocol
mod Admin
mod Sentience
mod Ipc
mod Reflex
