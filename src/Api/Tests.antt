-- ===== src/Api/Tests.antt =====
-- An error of a kind that is not meant for the caller.
