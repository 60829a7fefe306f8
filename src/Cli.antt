-- ===== src/Cli.antt =====
-- client/src/cli_commands.c. Here: how a line that is typed becomes words, and these a command.
-- `atoi` and `strtol` are one parameter, and so is `malloc`.
pub mod Requests
pub mod Words
pub mod Lines
pub mod Screens
pub mod Session
pub mod Dialogue
pub mod Rounds
pub mod Conversation
use pyramid.Prelude.{
  ℕ, zero, suc, ◌+◌, ◌-◌, Bool, true, false, not, ◌&&◌, ◌||◌, Option, none, some, List, [], ◌∷◌,
  ◌++◌, length, ltb, ◌==◌, if◌then◌else◌, ℤ, get_elem?, take,
}
use pyramid.Wire.{Run, ok, fault, out_of_fuel, ◌>>=◌, Bytes, c_string, store}
use pyramid.Sending.{strlen}

-- The first loop of `cli_parse_line`: the string from the first character that is no blank on.
pub skip_blanks : Bytes → Bytes
skip_blanks [] = []
skip_blanks (c ∷ p) = if c == 32 then skip_blanks p else c ∷ p

-- `!*p || *p == inquote || (word_start && !inquote && (*p == ' ' || *p == '|'))`
abbrev pub ends_word : ℕ → Option Bytes → ℕ → Bool
ends_word c none inquote = c == 0 || c == inquote
ends_word c (some w) inquote = c == 0 || c == inquote || (inquote == 0 && (c == 32 || c == 124))

-- The characters from `word_start` to `p` are `word`, which is `none` where `word_start` is NULL.
abbrev pub add_word : Option Bytes → List Bytes → List Bytes
add_word none words = words
add_word (some w) words = words ++ w ∷ []

-- The last branch of the loop, for a character that is not special.
abbrev pub extend : ℕ → Option Bytes → Option Bytes
extend c (some w) = some (w ++ c ∷ [])
extend c none = if c == 124 || c == 32 then none else some (c ∷ [])

abbrev pub add_bar : ℕ → Option Bytes → List Bytes → List Bytes
add_bar c (some w) words = words
add_bar c none words = if c == 124 then words ++ (124 ∷ []) ∷ [] else words

-- `while (nwords < max_words - 1)`
pub parse_words : ℕ → ℕ → Bytes → Option Bytes → ℕ → List Bytes → Run (List Bytes)
parse_words zero max_words p word inquote words = out_of_fuel
parse_words (suc fuel) max_words [] word inquote words =
    if ltb (length words) (max_words - 1) then fault else ok words
parse_words (suc fuel) max_words (c ∷ p) word inquote words =
    let after_quote = parse_words fuel max_words p none 0 (add_word word words) in
    let at_separator = parse_words fuel max_words (c ∷ p) none 0 (add_word word words) in
    let quoted = parse_words fuel max_words p (some []) c words in
    let further = parse_words fuel max_words p (extend c word) inquote (add_bar c word words) in
    if not (ltb (length words) (max_words - 1))
    then ok words
    else if ends_word c word inquote
    then (if c == 0
        then ok (add_word word words)
        else if not (inquote == 0)
        then after_quote
        else at_separator)
    else if c == 34 || c == 39
    then quoted
    else further

-- After the first loop `word_start` is set, unless only blanks were found.
abbrev pub start_word : Bytes → Option Bytes
start_word [] = none
start_word (c ∷ p) = if c == 0 then none else some []

pub cli_parse_line : ℕ → Bytes → ℕ → Run (List Bytes)
unfolding skip_blanks parse_words
cli_parse_line fuel line max_words =
    let p = skip_blanks line in parse_words fuel max_words p (start_word p) 0 []

-- `strcat`
pub strcat : Bytes → Bytes → Run Bytes
strcat dest src = do n ← strlen dest; store dest n (src ++ 0 ∷ [])

-- Each word is put behind what is there, with a blank behind it.
pub trim : Bytes → List Bytes → Run Bytes
unfolding strcat
trim dest [] = ok dest
trim dest (w ∷ words) = do d1 ← strcat dest w; d2 ← strcat d1 (32 ∷ []); trim d2 words

-- The function that a command calls; `parse_cli` calls all but `cli_print_job_details` and
-- `cli_set_job_result_queue_size`, whose branches are commented out.
pub data Command : Type 0 where
  cli_print_multicast_groups : Command
  cli_print_clients : Command
  cli_logging_level : ℕ → Command
  cli_help : Command
  cli_clear_screen : Command
  cli_set_repository_address : Bytes → Bytes → Bytes → Bytes → Command
  cli_set_job_timeout : ℤ → Command
  cli_print_job_result : ℤ → Command
  cli_print_job_details : ℤ → Command
  cli_set_job_result_queue_size : ℤ → Command
  cli_exec_task : ℕ → Bytes → ℤ → Command
  unsupported : Command
  not_found : Command

-- `!strcmp(a, b)`
unfoldable pub strings_equal : Bytes → Bytes → Bool
strings_equal [] [] = true
strings_equal (a ∷ xs) (b ∷ ys) = a == b && strings_equal xs ys
strings_equal _ _ = false

-- `!strncmp(s, prefix, strlen(prefix))`
pub has_prefix : Bytes → Bytes → Bool
unfolding strings_equal
has_prefix prefix s = strings_equal (take (length prefix) s) prefix

-- `words[i]`
abbrev pub word : List Bytes → ℕ → Bytes
word words i = elim (get_elem? words i) [ none ↦ [] | some w ↦ w ]

-- "max"
pub get_algo_type : Bytes → Option ℕ
unfolding strings_equal
get_algo_type algo_type =
    if strings_equal algo_type (b'm' ∷ b'a' ∷ b'x' ∷ []) then some 102 else none
