-- ===== src/Driver.antt =====
-- goblin_zomboid/body.py and npc.py: the gate in front of every body driver, and the driver that
-- publishes commands.
pub mod Gate
pub mod Npc
pub mod Selected
