-- ===== src/Mysql.antt =====
-- internal/repository/mysql: the retries of a database operation.
pub mod Retry
