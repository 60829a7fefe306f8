-- ===== src/Cli/Screens.antt =====
-- The texts that client/src/cli_commands.c prints.
use pyramid.Prelude.{as_int, ℕ, List, [], ◌∷◌, ◌++◌, ℤ, replicate}
use pyramid.Wire.{Bytes}
use pyramid.Jobs.Assign.{show_int}

-- `cli_help`, one text for each `printf`.
abbrev pub help_lines : List Bytes
help_lines =
    (10 ∷ b'L' ∷ b'i' ∷ b's' ∷ b't' ∷ 32 ∷ b'o' ∷ b'f' ∷ 32 ∷ b'A' ∷ b'v' ∷ b'a' ∷ b'i' ∷ b'l'
      ∷ b'a' ∷ b'b' ∷ b'l' ∷ b'e' ∷ 32 ∷ b'C' ∷ b'o' ∷ b'm' ∷ b'm' ∷ b'a' ∷ b'n' ∷ b'd' ∷ b's' ∷ 32
      ∷ b':' ∷ 32 ∷ 10 ∷ [])
    ∷ (10 ∷ 32 ∷ b'D' ∷ b'e' ∷ b'b' ∷ b'u' ∷ b'g' ∷ 32 ∷ b'C' ∷ b'o' ∷ b'm' ∷ b'm' ∷ b'a' ∷ b'n'
        ∷ b'd' ∷ b's' ∷ b':' ∷ [])
    ∷ (10 ∷ 9 ∷ b's' ∷ b'h' ∷ b'o' ∷ b'w' ∷ 32 ∷ b'm' ∷ b'u' ∷ b'l' ∷ b't' ∷ b'i' ∷ b'c' ∷ b'a'
        ∷ b's' ∷ b't' ∷ 32 ∷ b'g' ∷ b'r' ∷ b'o' ∷ b'u' ∷ b'p' ∷ b's' ∷ [])
    ∷ (10 ∷ 9 ∷ b's' ∷ b'h' ∷ b'o' ∷ b'w' ∷ 32 ∷ b'c' ∷ b'l' ∷ b'i' ∷ b'e' ∷ b'n' ∷ b't' ∷ b's' ∷ 32
        ∷ b'a' ∷ b'l' ∷ b'l' ∷ [])
    ∷ (10 ∷ 9 ∷ b'h' ∷ b'e' ∷ b'l' ∷ b'p' ∷ [])
    ∷ (10 ∷ 9 ∷ b'c' ∷ b'l' ∷ b'e' ∷ b'a' ∷ b'r' ∷ [])
    ∷ (10 ∷ 9 ∷ b's' ∷ b'h' ∷ b'o' ∷ b'w' ∷ 32 ∷ b'j' ∷ b'o' ∷ b'b' ∷ b'-' ∷ b'r' ∷ b'e' ∷ b's'
        ∷ b'u' ∷ b'l' ∷ b't' ∷ 32 ∷ b'<' ∷ b'j' ∷ b'o' ∷ b'b' ∷ b'-' ∷ b'i' ∷ b'd' ∷ b'>' ∷ [])
    ∷ (10 ∷ 32 ∷ b'C' ∷ b'o' ∷ b'n' ∷ b'f' ∷ b'i' ∷ b'g' ∷ 32 ∷ b'C' ∷ b'o' ∷ b'm' ∷ b'm' ∷ b'a'
        ∷ b'n' ∷ b'd' ∷ b's' ∷ b':' ∷ [])
    ∷ ((10 ∷ 9 ∷ b's' ∷ b'e' ∷ b't' ∷ 32 ∷ b'r' ∷ b'e' ∷ b'p' ∷ b'o' ∷ b's' ∷ b'i' ∷ b't' ∷ b'o'
          ∷ b'r' ∷ b'y' ∷ 32 ∷ b'<' ∷ b'i' ∷ b'p' ∷ b'-' ∷ b'a' ∷ b'd' ∷ b'd' ∷ b'r' ∷ b'e' ∷ b's'
          ∷ b's' ∷ b'>' ∷ 32 ∷ b'<' ∷ b'p' ∷ b'a' ∷ b't' ∷ b'h' ∷ b'>' ∷ 32 ∷ b'<' ∷ b'u' ∷ b's'
          ∷ b'e' ∷ b'r' ∷ b'n' ∷ b'a' ∷ b'm' ∷ b'e' ∷ b'>' ∷ 32 ∷ [])
        ++ (b'<' ∷ b'p' ∷ b'w' ∷ b'd' ∷ b'>' ∷ []))
    ∷ (10 ∷ 9 ∷ b's' ∷ b'e' ∷ b't' ∷ 32 ∷ b'j' ∷ b'o' ∷ b'b' ∷ 32 ∷ b't' ∷ b'i' ∷ b'm' ∷ b'e' ∷ b'o'
        ∷ b'u' ∷ b't' ∷ 32 ∷ b'<' ∷ b't' ∷ 32 ∷ b's' ∷ b'e' ∷ b'c' ∷ b'>' ∷ [])
    ∷ (10 ∷ 32 ∷ b'E' ∷ b'x' ∷ b'e' ∷ b'c' ∷ b'u' ∷ b't' ∷ b'e' ∷ 32 ∷ b'C' ∷ b'o' ∷ b'm' ∷ b'm'
        ∷ b'a' ∷ b'n' ∷ b'd' ∷ b's' ∷ b':' ∷ [])
    ∷ (10 ∷ 9 ∷ b'e' ∷ b'x' ∷ b'e' ∷ b'c' ∷ b'u' ∷ b't' ∷ b'e' ∷ 32 ∷ b'm' ∷ b'a' ∷ b'x' ∷ 32 ∷ b'<'
        ∷ b'f' ∷ b'i' ∷ b'l' ∷ b'e' ∷ b'_' ∷ b'n' ∷ b'a' ∷ b'm' ∷ b'e' ∷ b'>' ∷ 32 ∷ b'<' ∷ b'm'
        ∷ b'u' ∷ b'l' ∷ b't' ∷ b'i' ∷ b'c' ∷ b'a' ∷ b's' ∷ b't' ∷ b'_' ∷ b'g' ∷ b'r' ∷ b'o' ∷ b'u'
        ∷ b'p' ∷ b'_' ∷ b'i' ∷ b'd' ∷ b'>' ∷ [])
    ∷ (10 ∷ [])
    ∷ []

-- What `cli_main` prints when it is first called: a line of stars, a line with the program's name in
-- it, a line of stars, the help and a line of stars.
abbrev stars : ℕ → Bytes
stars n = replicate n 42

abbrev program_name : Bytes
program_name =
    32 ∷ b'P' ∷ b'y' ∷ b'r' ∷ b'a' ∷ b'm' ∷ b'i' ∷ b'd' ∷ 32 ∷ b'C' ∷ b'L' ∷ b'I' ∷ 32 ∷ b'I' ∷ b'n'
    ∷ b't' ∷ b'e' ∷ b'r' ∷ b'f' ∷ b'a' ∷ b'c' ∷ b'e' ∷ 32 ∷ []

abbrev pub banner_lines : List Bytes
banner_lines =
    (10 ∷ stars 110)
    ∷ (10 ∷ (stars 37 ++ (program_name ++ stars 50)))
    ∷ (10 ∷ (stars 110 ++ (10 ∷ 10 ∷ [])))
    ∷ (help_lines ++ ((10 ∷ stars 110) ∷ []))

abbrev pub prompt_line : Bytes
prompt_line = 10 ∷ b'P' ∷ b'Y' ∷ b'R' ∷ b'A' ∷ b'M' ∷ b'I' ∷ b'D' ∷ b'#' ∷ 32 ∷ []

abbrev pub end_line : Bytes
end_line =
    10 ∷ b'*' ∷ b'*' ∷ b'*' ∷ b'*' ∷ b'*' ∷ 32 ∷ b'E' ∷ b'n' ∷ b'd' ∷ 32 ∷ b'*' ∷ b'*' ∷ b'*' ∷ b'*'
    ∷ b'*' ∷ 10 ∷ []

abbrev pub unsupported_line : Bytes
unsupported_line =
    b'U' ∷ b'n' ∷ b's' ∷ b'u' ∷ b'p' ∷ b'p' ∷ b'o' ∷ b'r' ∷ b't' ∷ b'e' ∷ b'd' ∷ 32 ∷ b'A' ∷ b'l'
    ∷ b'g' ∷ b'o' ∷ b'r' ∷ b'i' ∷ b't' ∷ b'h' ∷ b'm' ∷ 32 ∷ 10 ∷ []

abbrev pub not_found_lines : List Bytes
not_found_lines =
    (10 ∷ b'C' ∷ b'o' ∷ b'm' ∷ b'm' ∷ b'a' ∷ b'n' ∷ b'd' ∷ 32 ∷ b'N' ∷ b'o' ∷ b't' ∷ 32 ∷ b'f'
      ∷ b'o' ∷ b'u' ∷ b'n' ∷ b'd' ∷ b'!' ∷ 10 ∷ [])
    ∷ ((10 ∷ b'E' ∷ b'n' ∷ b't' ∷ b'e' ∷ b'r' ∷ 32 ∷ b'"' ∷ b'h' ∷ b'e' ∷ b'l' ∷ b'p' ∷ b'"' ∷ 32
          ∷ b'c' ∷ b'o' ∷ b'm' ∷ b'm' ∷ b'a' ∷ b'n' ∷ b'd' ∷ 32 ∷ b't' ∷ b'o' ∷ 32 ∷ b'c' ∷ b'h'
          ∷ b'e' ∷ b'c' ∷ b'k' ∷ 32 ∷ b't' ∷ b'h' ∷ b'e' ∷ 32 ∷ b'l' ∷ b'i' ∷ b's' ∷ b't' ∷ 32
          ∷ b'o' ∷ b'f' ∷ 32 ∷ b'a' ∷ b'v' ∷ b'a' ∷ b'i' ∷ b'l' ∷ [])
        ++ (b'a' ∷ b'b' ∷ b'l' ∷ b'e' ∷ 32 ∷ b'c' ∷ b'o' ∷ b'm' ∷ b'm' ∷ b'a' ∷ b'n' ∷ b'd' ∷ b's'
            ∷ b'.' ∷ []))
    ∷ []

-- What a command prints before it asks the server.
abbrev pub groups_line : Bytes
groups_line =
    (10 ∷ b'A' ∷ b'v' ∷ b'a' ∷ b'i' ∷ b'l' ∷ b'a' ∷ b'b' ∷ b'l' ∷ b'e' ∷ 32 ∷ b'M' ∷ b'u' ∷ b'l'
      ∷ b't' ∷ b'i' ∷ b'c' ∷ b'a' ∷ b's' ∷ b't' ∷ 32 ∷ b'g' ∷ b'r' ∷ b'o' ∷ b'u' ∷ b'p' ∷ b's' ∷ 32
      ∷ b'l' ∷ b'i' ∷ b's' ∷ b't' ∷ b':' ∷ [])

abbrev pub clients_line : Bytes
clients_line =
    (10 ∷ b'L' ∷ b'i' ∷ b's' ∷ b't' ∷ 32 ∷ b'o' ∷ b'f' ∷ 32 ∷ b'a' ∷ b'v' ∷ b'a' ∷ b'i' ∷ b'l'
      ∷ b'a' ∷ b'b' ∷ b'l' ∷ b'e' ∷ 32 ∷ b'c' ∷ b'l' ∷ b'i' ∷ b'e' ∷ b'n' ∷ b't' ∷ b's' ∷ b':' ∷ 10
      ∷ [])

abbrev pub job_details_line : ℤ → Bytes
job_details_line job_id =
    (10 ∷ b'J' ∷ b'o' ∷ b'b' ∷ 32 ∷ b'd' ∷ b'e' ∷ b't' ∷ b'a' ∷ b'i' ∷ b'l' ∷ b's' ∷ 32 ∷ b'f'
      ∷ b'o' ∷ b'r' ∷ 32 ∷ b'j' ∷ b'o' ∷ b'b' ∷ b':' ∷ 32 ∷ [])
    ++ (show_int job_id ++ 10 ∷ [])

abbrev pub job_result_line : ℤ → Bytes
job_result_line job_id =
    (10 ∷ b'R' ∷ b'e' ∷ b's' ∷ b'u' ∷ b'l' ∷ b't' ∷ 32 ∷ b'o' ∷ b'f' ∷ 32 ∷ b'J' ∷ b'o' ∷ b'b'
      ∷ b':' ∷ 32 ∷ [])
    ++ (show_int job_id ++ 10 ∷ [])

abbrev pub size_line : ℤ → Bytes
unfolding as_int
size_line size =
    (10 ∷ b'J' ∷ b'o' ∷ b'b' ∷ 32 ∷ b'r' ∷ b'e' ∷ b's' ∷ b'u' ∷ b'l' ∷ b't' ∷ 32 ∷ b'q' ∷ b'u'
      ∷ b'e' ∷ b'u' ∷ b'e' ∷ 32 ∷ b's' ∷ b'i' ∷ b'z' ∷ b'e' ∷ 32 ∷ b'u' ∷ b'p' ∷ b'd' ∷ b'a' ∷ b't'
      ∷ b'e' ∷ b'd' ∷ 32 ∷ b't' ∷ b'o' ∷ b':' ∷ 32 ∷ [])
    ++ show_int (as_int size)

abbrev pub submitted_line : Bytes
submitted_line =
    (10 ∷ b'J' ∷ b'o' ∷ b'b' ∷ 32 ∷ b's' ∷ b'u' ∷ b'b' ∷ b'm' ∷ b'i' ∷ b't' ∷ b't' ∷ b'e' ∷ b'd'
      ∷ 32 ∷ b't' ∷ b'o' ∷ 32 ∷ b's' ∷ b'e' ∷ b'r' ∷ b'v' ∷ b'e' ∷ b'r' ∷ 32 ∷ b'f' ∷ b'o' ∷ b'r'
      ∷ 32 ∷ b'e' ∷ b'x' ∷ b'e' ∷ b'c' ∷ b'u' ∷ b't' ∷ b'i' ∷ b'o' ∷ b'n' ∷ b'!' ∷ 10 ∷ [])
