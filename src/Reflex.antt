-- ===== src/Reflex.antt =====
-- goblin_zomboid/reflex.py
pub mod Bank
pub mod Orders
pub mod Bayes
pub mod Route
pub mod Social
