-- ===== src/Cli/Shell/Files.antt =====
-- The stack of files that the shell reads.
use ucli.Base.{ℕ, Bool, true, List, [], ◌∷◌, ◌≡◌, ◌≢◌, refl, sym}
use ucli.Cli.Shell.{Shell, ShellFile, push_file, pop_from, pop_file}

-- What the shell reads when its files are these, and `istream` when it has none.
abbrev input : ℕ → List ShellFile → ℕ
input istream [] = istream
input istream (top ∷ files) = top.file

-- While there are files, tinyrl reads the one on top of the stack.
abbrev pub ReadsTop : Shell → Type 0
ReadsTop this = this.istream ≡ input this.istream this.current_file

-- How the stack of files changes.
pub data Step : Shell → Shell → Type 0 where
  pushed : (this : Shell) (file : ℕ) (stop : Bool) → Step this (push_file this file stop).1
  popped : (this : Shell) → Step this (pop_file this).1

pop_from-ReadsTop :
    (this : Shell) (files : List ShellFile)
    → ReadsTop this
    → this.current_file ≡ files
    → ReadsTop (pop_from this files).1
unfolding pop_from
pop_from-ReadsTop this [] h e = h
pop_from-ReadsTop this (top ∷ []) h e = refl
pop_from-ReadsTop this (top ∷ next ∷ files) h e = refl

-- Each step keeps tinyrl at the file on top of the stack.
pub Step-ReadsTop : (this next : Shell) → Step this next → ReadsTop this → ReadsTop next
Step-ReadsTop this next (pushed _ file stop) h = unfold push_file in refl
Step-ReadsTop this next (popped _) h =
    unfold pop_file in pop_from-ReadsTop this this.current_file h refl

pop_from_pushed :
    (this : Shell) (file : ShellFile) (files : List ShellFile)
    → this.istream ≡ input this.istream files
    → this.current_file ≡ files
    → files ≢ []
    → pop_from (record this { current_file = file ∷ files; istream = file.file }) (file ∷ files)
      ≡ (true, record this { closed = file.file ∷ this.closed })
unfolding pop_from
pop_from_pushed this file [] h e n = absurd (n refl)
pop_from_pushed this file (top ∷ files) h e n = λ i. (
  true,
  record this { current_file = sym e i; istream = sym h i; closed = file.file ∷ this.closed },
)

-- A file that is pushed on others, and then popped, leaves the shell as it was, but that the file has
-- been closed.
pub pop_file-push_file :
    (this : Shell) (file : ℕ) (stop : Bool)
    → ReadsTop this
    → this.current_file ≢ []
    → pop_file (push_file this file stop).1 ≡ (true, record this { closed = file ∷ this.closed })
unfolding push_file pop_file
pop_file-push_file this file stop h n =
    pop_from_pushed this (record { file = file; stop_on_error = stop }) this.current_file h refl n
