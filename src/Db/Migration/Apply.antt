-- ===== src/Db/Migration/Apply.antt =====
-- Where migrations do nothing.
