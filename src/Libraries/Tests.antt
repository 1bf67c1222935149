-- ===== src/Libraries/Tests.antt =====
-- The registrations of all libraries with all memory granted.
