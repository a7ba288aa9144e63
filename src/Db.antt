-- ===== src/Db.antt =====
-- The canonical PostgreSQL database: rows, tables, errors and transactions.
-- (packages/core/aidan_core/{db,models,errors}.py and the migrations 0001 to 0014.)
pub mod Rows
pub mod Research
pub mod Validation
pub mod Tx
pub mod Queries
