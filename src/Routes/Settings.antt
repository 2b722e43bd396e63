-- ===== src/Routes/Settings.antt =====
-- src/routes/users.rs: `set_view_permission`.
