-- ===== src/Model.antt =====
-- The data model of app/database/model.py: the rows of the tables, and the database.
mod Rows
mod Tables
pub use Rows.*
pub use Tables.*
