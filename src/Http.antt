-- ===== src/Http.antt =====
-- The routes of app/main.py. A route answers with a value or an HTTP error.
pub mod Responses
