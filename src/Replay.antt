-- ===== src/Replay.antt =====
-- The replay client, clients/taobao_replay: reader.py in Reader, replay.py in Player.
pub mod Reader
pub mod Player
