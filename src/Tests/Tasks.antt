-- ===== src/Tests/Tasks.antt =====
-- A worker at concrete tasks.
use pyramid.Prelude.{
  ℕ, ◌%◌, ◌≡◌, refl, true, false, Option, none, some, List, [], ◌∷◌, ◌++◌, arith, length, ◌==◌,
  if◌then◌else◌, map, ℤ, pos, replicate,
}
use pyramid.Wire.{ok, Bytes, htons}
use pyramid.Tlv.{Tlv, decode}
use pyramid.Tlv.Attribute.{algo_max, join_group}
use pyramid.Tlv.Frame.{tlv_bytes}
use pyramid.Tlv.Decode.{group_bytes}
use pyramid.Messages.{Progress}
use pyramid.Sending.{Socket, returned}
use pyramid.Sending.Laws.{after_frame}
use pyramid.Cli.{strings_equal}
use pyramid.Worker.{Worker, Host, handle_exec_data}
use pyramid.Worker.Names.{IsName}
use pyramid.Worker.Tasks.{IsTask}
use pyramid.Worker.Answers.{after_error, handle_exec_data-error}
use pyramid.Worker.Start.{client_input_sanity_check, client_main, to_port, all_digits, is_cli}
use pyramid.Worker.Joining.{asked_groups, client_main-joins}

abbrev two_lines : List Bytes
two_lines = (b'3' ∷ 10 ∷ []) ∷ (b'1' ∷ b'2' ∷ 10 ∷ []) ∷ []

-- A line of two characters is 3, and one of three is 12.
abbrev line_number : Bytes → ℕ
line_number line = if length line == 2 then 3 else 12

abbrev host_with : Option (List Bytes) → Host
host_with file = record {
  send = λ c n. some n;
  strtoumax = λ line. some (line_number line);
  writable = λ name. true;
  system = λ command files name. file;
  dlopen = true;
  dlsym = true;
}

-- "a/b"
abbrev dir : Bytes
dir = b'a' ∷ []

abbrev name : Bytes
name = b'b' ∷ []

name-IsName : IsName name
name-IsName = (((λ e. omega (arith, e)), tt), omega arith)

abbrev fresh : Socket
fresh = record { calls = 0; out = [] }

abbrev start : Progress Worker
start = record { g_groups = []; done = false; state = record { files = λ n. none; socket = fresh } }

abbrev task : Tlv
task = record { type = algo_max; length = 3; value = some ((dir ++ (47 ∷ name)) ++ (0 ∷ [])) }

slash-IsTask : (file : Option (List Bytes)) → IsTask (host_with file) dir name
slash-IsTask file = record {
  dlopen = refl;
  dlsym = refl;
  free = ((λ e. omega (arith, e)), ((λ e. omega (arith, e)), ((λ e. omega (arith, e)), tt)));
  is_name = name-IsName;
  short = omega arith;
}

handle_exec_data-error_example :
    handle_exec_data (host_with none) 2 task start
    ≡ ok (record start {
      state = record { files = λ n. none; socket = after_error (host_with none).send fresh };
    })
handle_exec_data-error_example =
    handle_exec_data-error (host_with none) 0 dir name [] (slash-IsTask none) (omega arith)
      (λ c n. refl) task start refl refl refl

abbrev aton : Bytes → Option ℕ
aton address = some 1

-- "80" is 80, and any other text is 5.
abbrev atoi : Bytes → ℤ
atoi p = if length p == 2 then pos 80 else pos 5

abbrev port_80 : Bytes
port_80 = b'8' ∷ b'0' ∷ []

accepted : client_input_sanity_check aton atoi (dir ∷ port_80 ∷ name ∷ []) ≡ some (1, 20480)
unfolding client_input_sanity_check all_digits to_port htons
accepted = refl

not_cli : is_cli aton atoi (name ∷ []) ≡ false
unfolding strings_equal
not_cli = refl

client_main-joins_example :
    (client_main aton atoi
        (λ c n. some n)
        (dir ∷ port_80 ∷ name ∷ [])
        ((9 ∷ []) ++ replicate 254 9)
        fresh
      ≡ ok (
          some (
            returned (
              after_frame
                (λ c n. some n)
                join_group
                (group_bytes (asked_groups aton atoi (name ∷ [])))
                fresh))))
    × (decode
          (tlv_bytes join_group (group_bytes (asked_groups aton atoi (name ∷ []))) ++ [])
          ((0 ∷ []) ++ replicate 254 0)
        ≡ ok (
          record { type = join_group; length = 4; value = none },
          map (λ g. g % 65536) (asked_groups aton atoi (name ∷ [])) ++ replicate 254 0,
        ))
client_main-joins_example =
    client_main-joins aton atoi (λ c n. some n) dir port_80 name [] (1, 20480) (9 ∷ [])
      (replicate 254 9) fresh (0 ∷ []) (replicate 254 0) [] (λ c n. refl) accepted not_cli
      (omega arith) refl refl
