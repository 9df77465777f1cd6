-- ===== src/Search/Persist/Roundtrip.antt =====
-- A strategy that is stored is read back.
