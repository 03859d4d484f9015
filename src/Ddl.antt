-- ===== src/Ddl.antt =====
-- src/rootserver: DDL statements, from the log record to the schema and the files, and the replay
-- that brings the schema back after a restart.
pub mod Operator
pub mod Baseline
pub mod Service
pub mod Startup
mod Runs
