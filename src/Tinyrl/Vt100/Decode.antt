-- ===== src/Tinyrl/Vt100/Decode.antt =====
-- What an escape sequence is read as.
