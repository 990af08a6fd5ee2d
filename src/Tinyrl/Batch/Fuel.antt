-- ===== src/Tinyrl/Batch/Fuel.antt =====
-- The fuel for reading a line from a file.
use ucli.Base.{
  ℕ, zero, suc, ◌+◌, ◌≤◌, ◌<◌, Bool, [], ◌∷◌, Option, none, ◌==◌, if◌then◌else◌, length, Bool-cases,
  List-cases, inl, inr, ◌≡◌, ◌≢◌, refl, sym, ap, arith,
}
use ucli.Base.Run.{Run, Post, Post-bind, Post-then}
use ucli.Lub.Ctype.{Bytes}
use ucli.Tinyrl.Editor.{Tinyrl, line_text, insert_text}
use ucli.Tinyrl.Redisplay.{redisplay}
use ucli.Tinyrl.Readline.Frame.{insert_text-IsFramed}
use ucli.Tinyrl.Batch.{fgets, stripped, skip_space, add_piece, Reading, take_piece, read_pieces}

-- no byte is lost
length-fgets :
    (n : ℕ) (stream : Bytes)
    → length (fgets n stream).text + length (fgets n stream).stream ≡ length stream
unfolding fgets
length-fgets zero stream = omega arith
length-fgets (suc n) [] = omega arith
length-fgets (suc n) (c ∷ stream) = elim (Bool-cases (c == 10)) [
  | inl e ↦ rw e (omega arith)
  | inr e ↦ let rest = length-fgets n stream in rw e (omega (arith, rest))
]

redisplay_stream : (this : Tinyrl) → Post (λ next. next.istream ≡ this.istream) (redisplay this)
unfolding redisplay
redisplay_stream this =
    Post-bind (λ next. next.istream ≡ this.istream) (line_text this) _ (λ line. refl)

Post-path :
    (stream stream' : Bytes) (m : Run Tinyrl)
    → stream ≡ stream'
    → Post (λ next. next.istream ≡ stream) m
    → Post (λ next. next.istream ≡ stream') m
Post-path stream stream' m e h = rw (sym e) h

add_piece_stream :
    (this : Tinyrl) (text : Bytes)
    → Post (λ next. next.istream ≡ this.istream) (add_piece this text)
unfolding add_piece
add_piece_stream this text = elim (List-cases (if this.point == 0 then skip_space text else text)) [
  | inl e ↦ rw (e, add_piece) refl
  | inr (c, t, e) ↦
      rw (e, add_piece)
        (Post-path _ this.istream (redisplay (insert_text this (c ∷ t)).1)
          (insert_text-IsFramed this (c ∷ t)).2 (redisplay_stream (insert_text this (c ∷ t)).1))
]

take_piece-ends :
    (fuel : ℕ) (rest : Tinyrl → Run (Option Reading)) (this : Tinyrl) (at_eof : Bool) (text : Bytes)
    → ((next : Tinyrl) → length next.istream < fuel → Post (λ reading. reading ≢ none) (rest next))
    → length text + length this.istream ≤ fuel
    → Post (λ reading. reading ≢ none) (take_piece rest this at_eof text)
unfolding take_piece
take_piece-ends fuel rest this at_eof [] h small = λ e. cc
take_piece-ends fuel rest this at_eof (c ∷ text) h small =
    Post-then (λ next. next.istream ≡ this.istream) (λ reading. reading ≢ none)
      (add_piece this (stripped (c ∷ text))) _ (add_piece_stream this (stripped (c ∷ text)))
      (λ added same. elim (Bool-cases (length (stripped (c ∷ text)) == 79)) [
        | inl e ↦ rw e (h added (let size = ap length same in omega (arith, size, small)))
        | inr e ↦ rw e (λ k. cc)
      ])

-- Fuel for the bytes that are left and one more is enough: the loop that reads a line from a file comes to
-- its end, unless the process stops.
pub read_pieces-ends :
    (fuel : ℕ) (this : Tinyrl)
    → length this.istream < fuel
    → Post (λ reading. reading ≢ none) (read_pieces fuel this)
unfolding read_pieces
read_pieces-ends zero this h = ground (arith, h)
read_pieces-ends (suc fuel) this h =
    let piece = fgets 79 this.istream in
    let size = length-fgets 79 this.istream in
    take_piece-ends fuel (read_pieces fuel) (record this { istream = piece.stream }) piece.at_eof
      piece.text (λ next small. read_pieces-ends fuel next small) (omega (arith, size, h))
