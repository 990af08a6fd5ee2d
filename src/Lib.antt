-- ===== src/Lib.antt =====
-- ucli reads command lines for a network device's shell. A line is split into words, a command is
-- looked up in the tree of the current view or of the global one, its arguments are parsed and checked
-- against their types, and the action of the command is expanded into a script. The parts and their
-- files, from the bottom up:
--
--   Base          names shared by all: tests on numbers, lists over the native numbers, integers, and
--                 `Run` for code that may stop the process (a failed assertion, the use of NULL)
--   Lub.Ctype     contrib/lub/ctype: the character classes of the "C" locale
--   Lub.Text      contrib/lub/string: lub_string_cat, catn, dup, dupn, nocasecmp, nocasestr, suffix
--   Lub.Argv      contrib/lub/argv: lub_argv_nextword, wordcount, new and the access to the words
--   Lub.Bintree   contrib/lub/bintree: the splay, find, findfirst, findlast, findnext,
--                 findprevious, insert and remove, and in Lub.Bintree.Walk the iterators
--   Lub.Fifo      contrib/lub/fifo/fifo.c: the queue of nodes in memory
--   Cli.Ptype     libucli/ptype/ptype.c: ucli_ptype_validate and translate, with the items of a select,
--                 and in Cli.Ptype.Pattern ucli_ptype_new, set_pattern, word_generator and the names
--   Cli.Param     libucli/param/param.c: ucli_param_new, validate and the setters
--   Cli.Command   libucli/command/command.c: ucli_command_new, find_option, next_non_option, diff,
--                 choose_longest and the setters
--   Cli.Pargv     libucli/pargv/pargv.c: ucli_pargv_init with its defaults, its loop over the words and
--                 the check for what is missing
--   Cli.Variable  libucli/variable/variable_expand.c: ucli_variable_expand and the escaping
--   Cli.View      libucli/view/view.c: ucli_view_new_command, find_command, resolve_prefix,
--                 resolve_command, and in Cli.View.Completion find_next_completion
--   Cli.Shell     libucli/shell: ucli_shell_resolve_command, resolve_prefix and parse over the current
--                 and the global view, and the stack of input files
--   Cli.Shell.Create      libucli/shell: shell_new, find_view, insert_view, find_create_view, set_context
--   Cli.Shell.Completion  libucli/shell/shell_command_generator.c: the completions in both views, one
--                 after the other, with getfirst_command and getnext_command
--   Cli.Shell.Execute     libucli/shell/shell_execute.c and shell_startup.c: the builtins and the
--                 execution of a command
--   Cli.Shell.Types       libucli/shell: shell_find_create_ptype and shell_insert_ptype
--   Cli.Shell.Help        libucli/shell/shell_help.c: ucli_shell_help
--   Cli.Shell.Reach       what holds of a shell's views and pointers after any of these
--   Tinyrl.History    contrib/tinyrl/history: the entries, oldest first, with add, remove, clear, stifle,
--                 unstifle, get and the iterators
--   Tinyrl.Expand     contrib/tinyrl/history/history.c: tinyrl_history_expand
--   Tinyrl.Memory     the block of memory that the editor's buffer is, with memmove, strncpy and strcpy
--   Tinyrl.Editor     contrib/tinyrl/tinyrl.c: the state of the editor and tinyrl_insert_text,
--                 delete_text, extend_line_buffer, is_quoting and bind_key
--   Tinyrl.Redisplay  contrib/tinyrl/tinyrl.c: tinyrl_redisplay, reset_line_state and replace_line
--   Tinyrl.Vt100      contrib/tinyrl/vt100/vt100.c: tinyrl_vt100_escape_decode
--   Tinyrl.Complete   contrib/tinyrl/tinyrl.c: tinyrl_completion, display_matches and do_complete
--   Tinyrl.Keys       contrib/tinyrl/tinyrl.c: the handlers of the keys
--   Tinyrl.Readline   contrib/tinyrl/tinyrl.c: tinyrl_new and tinyrl_readline on a terminal
--   Tinyrl.Batch      contrib/tinyrl/tinyrl.c: tinyrl_readline on a file
--   Tests         runs on concrete inputs and instances of the theorems
--
-- A function is named as in the source, less the prefix of its module. An object that the code changes
-- in place is taken and returned as a value; a search in a tree returns the tree as well, since it
-- splays it. A `char *` that may be NULL is an `Option` of a list of bytes, and a position in a string
-- is the suffix that starts there. In the shell, views are named by their key in the tree of views and
-- looked up again at each use, so that the current and the global view may be the same object.
--
-- In the line editor, `line` either points at the buffer or at the text of a history entry, and the
-- difference is kept. The buffer is a function from offsets to bytes with the size of its block; a
-- string that is read without a terminator inside the block stops the run. What the editor prints is a
-- list of requests to the terminal, and what it reads is the list of the bytes that are left.
--
-- What is assumed: memory is there when it is asked for, assertions are compiled in, `char` is signed,
-- and the locale is "C". The C library's regcomp and regexec, sscanf and
-- sprintf for a range, the environment,
-- the files, atoi, the completion function, the key handlers and the callbacks of a client are parameters. What a
-- refused line prints is a value (the parameter and the offset of the mark).
--
-- Loops over a text take fuel. A word takes at least one character, so one more than the length of the
-- line is enough for the loops of Lub.Argv (proved in Lub.Argv.Count and Lub.Argv.RoundTrip); the length
-- of the text is enough for the escaping (proved in Cli.Variable.Escape), one more for the expansion,
-- where each segment takes a character, and the number of words for the loop of ucli_pargv_init, which
-- takes one a round (proved in Cli.Pargv.Finish). The loop of tinyrl_readline needs a turn for each key
-- and one more (used in Tinyrl.Readline.Typed), and on a file
-- one for each 79 bytes and one more (proved in Tinyrl.Batch.Fuel). The loop for a completion takes a command a round, and so does the loop over all
-- completions (proved in Cli.View.Completion and Cli.Shell.Completion.Visit). The splay and the other loops are structural recursions.
--
-- Not modelled: the terminal modes, the allocators, what a command or a parameter prints about itself,
-- the word generator of the shell (it changes a type that parameters share, and a parameter holds its type
-- by value here), the reading of XML files, threads, the script modules, and the copies in clish-original and libucli.modified.
pub mod Base
pub mod Lub
pub mod Cli
pub mod Tinyrl
pub mod Tests
