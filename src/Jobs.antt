-- ===== src/Jobs.antt =====
-- Jobs and what they require: app/services/ingestion.py, analytics.py and roadmap.py, and the
-- archiving of job descriptions in app/main.py.
pub mod Rows
pub mod Analytics
pub mod Templates
pub mod Criteria
pub mod Roadmap
