-- ===== src/Flink.antt =====
-- The configuration of the Flink job, flink-python-pipeline/taobao_flink: config.py in Config, sql.py
-- in Sql.
pub mod Config
pub mod Job
pub mod Sql
