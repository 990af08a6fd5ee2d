-- ===== src/Tinyrl/Vt100.antt =====
-- contrib/tinyrl/vt100/vt100.c: reading escape sequences. The stream is the bytes that wait to be read;
-- behind the last one a read returns EOF.
pub mod Decode
use ucli.Base.{
  ℕ, zero, suc, Bool, List, [], ◌∷◌, ◌++◌, Option, none, some, ltb, ◌==◌, ◌&&◌, not, if◌then◌else◌,
}
use ucli.Base.Run.{Run, ok, abort, ◌>>=◌}
use ucli.Lub.Ctype.{Bytes}

pub data Escape : Type 0 where
  unknown cursor_up cursor_down cursor_left cursor_right : Escape

-- a byte that ends a control sequence
abbrev pub ends_sequence : ℕ → Bool
ends_sequence c = not (c == b'[') && ltb 63 c

-- The bytes up to the one that ends the sequence go to an array with `room` places left, and a
-- terminating zero behind them. There is no check against its end.
unfoldable pub read_sequence : ℕ → Bytes → Run (Option ℕ × Bytes)
read_sequence zero stream = abort
read_sequence (suc room) [] = ok (none, [])
read_sequence (suc room) (c ∷ stream) =
    let rest = read_sequence room stream in
    let last = if room == 0 then abort else ok (some c, stream) in
    if ends_sequence c then last else rest

-- the table of the terminators; without an entry the result stays as it was set
unfoldable pub code_of : ℕ → Escape
code_of c =
    if c == b'A'
    then cursor_up
    else (if c == b'B'
        then cursor_down
        else (if c == b'C' then cursor_right else (if c == b'D' then cursor_left else cursor_up)))

abbrev decoded : Option ℕ → Escape
decoded none = unknown
decoded (some c) = code_of c

unfoldable pub escape_decode : Bytes → Run (Escape × Bytes)
escape_decode stream = do found ← read_sequence 10 stream; ok (decoded found.0, found.1)
