-- ===== src/Social.antt =====
-- goblin_zomboid/social.py: what Goblin may say, and how often.
pub mod Speech
pub mod Governor
