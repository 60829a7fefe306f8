-- ===== src/Tests/Sessions.antt =====
-- The command line at concrete lines: two commands that the server answers, and a block of `malloc`
-- without a byte to spare.
use pyramid.Prelude.{
  ℕ, ◌≡◌, refl, Bool, true, false, not, ◌&&◌, some, [], ◌∷◌, ◌++◌, arith, All, ◌==◌, pos,
}
use pyramid.Wire.{ok, store, out_of_fuel, Bytes}
use pyramid.Tlv.Attribute.{cli_data}
use pyramid.Messages.Network.{value_line, goodbye_line}
use pyramid.Sending.{Socket, zeros}
use pyramid.Jobs.Assign.{decimal}
use pyramid.Cli.{strings_equal}
use pyramid.Cli.Words.{IsPlain, IsWord}
use pyramid.Cli.Requests.{command, request}
use pyramid.Cli.Lines.{spaced-NulFree, spaced, trimmed, parse_cli-line}
use pyramid.Cli.Screens.{banner_lines, prompt_line, end_line, clients_line, groups_line}
use pyramid.Cli.Session.{Console, cli_main}
use pyramid.Cli.Dialogue.{at}
use pyramid.Cli.Rounds.{Exchange, fresh, IsExchange, after_asking, ended}
use pyramid.Cli.Conversation.{cli_main-session, cli_main-end_of_input}

abbrev is_plain_byte : ℕ → Bool
is_plain_byte c =
    not (c == 0) && (not (c == 32) && (not (c == 124) && (not (c == 34) && not (c == 39))))

abbrev all_plain : Bytes → Bool
all_plain [] = true
all_plain (c ∷ w) = is_plain_byte c && all_plain w

is_plain_byte-IsPlain : (c : ℕ) → is_plain_byte c ≡ true → IsPlain c
is_plain_byte-IsPlain c h = ground arith

all_plain-IsPlain : (w : Bytes) → all_plain w ≡ true → All IsPlain w
all_plain-IsPlain [] h = tt
all_plain-IsPlain (c ∷ w) h = ground (arith, is_plain_byte-IsPlain c, all_plain-IsPlain w)

abbrev show : Bytes
show = b's' ∷ b'h' ∷ b'o' ∷ b'w' ∷ []

abbrev clients : Bytes
clients = b'c' ∷ b'l' ∷ b'i' ∷ b'e' ∷ b'n' ∷ b't' ∷ b's' ∷ []

abbrev all_word : Bytes
all_word = b'a' ∷ b'l' ∷ b'l' ∷ []

abbrev multicast : Bytes
multicast = b'm' ∷ b'u' ∷ b'l' ∷ b't' ∷ b'i' ∷ b'c' ∷ b'a' ∷ b's' ∷ b't' ∷ []

abbrev groups : Bytes
groups = b'g' ∷ b'r' ∷ b'o' ∷ b'u' ∷ b'p' ∷ b's' ∷ []

abbrev console : Console
console = record {
  send = λ k n. some n;
  number = λ p. pos 0;
  block = λ n. 0 ∷ zeros n;
  clears = true;
  stack = 9 ∷ [];
  spare = true;
}

abbrev unused : Socket
unused = record { calls = 0; out = [] }

-- "show clients all" and "show multicast groups", with an answer of one text each.
abbrev list_clients : Exchange
list_clients = record {
  line = spaced show (clients ∷ all_word ∷ []);
  chosen =
      command (λ p. pos 0) (trimmed (show ∷ clients ∷ all_word ∷ []))
        (show ∷ clients ∷ all_word ∷ []);
  asked = b'1' ∷ [];
  padding = zeros 78;
  answer = record { type = cli_data; chars = b'A' ∷ [] } ∷ [];
}

abbrev list_groups : Exchange
list_groups = record {
  line = spaced show (multicast ∷ groups ∷ []);
  chosen =
      command (λ p. pos 0) (trimmed (show ∷ multicast ∷ groups ∷ []))
        (show ∷ multicast ∷ groups ∷ []);
  asked = b'0' ∷ [];
  padding = zeros 78;
  answer = record { type = cli_data; chars = b'B' ∷ [] } ∷ [];
}

list_clients-words : All IsWord (show ∷ clients ∷ all_word ∷ [])
list_clients-words = (
  (omega arith, all_plain-IsPlain show refl),
  (
    (omega arith, all_plain-IsPlain clients refl),
    ((omega arith, all_plain-IsPlain all_word refl), tt),
  ),
)

list_clients-IsExchange : IsExchange console 40 list_clients
unfolding command request zeros store decimal
list_clients-IsExchange = record {
  free = spaced-NulFree show (clients ∷ all_word ∷ []) list_clients-words;
  some_char = omega arith;
  short = omega arith;
  no_exit = unfold strings_equal in refl;
  parsed =
      parse_cli-line (λ p. pos 0) (λ n. 0 ∷ zeros n) 42 17 show (clients ∷ all_word ∷ [])
        (0 ∷ 9 ∷ []) list_clients-words (omega arith) (omega arith) refl (omega arith);
  waits = refl;
  asks = record { asks = refl; free = (omega arith, tt); low = omega arith; high = omega arith };
  replies = record {
    shown = ((((refl, omega arith), (omega arith, tt)), refl), tt);
    enough = omega arith;
    some_bytes = omega arith;
    small = omega arith;
  };
}

list_groups-words : All IsWord (show ∷ multicast ∷ groups ∷ [])
list_groups-words = (
  (omega arith, all_plain-IsPlain show refl),
  (
    (omega arith, all_plain-IsPlain multicast refl),
    ((omega arith, all_plain-IsPlain groups refl), tt),
  ),
)

list_groups-IsExchange : IsExchange console 40 list_groups
unfolding command request zeros store decimal
list_groups-IsExchange = record {
  free = spaced-NulFree show (multicast ∷ groups ∷ []) list_groups-words;
  some_char = omega arith;
  short = omega arith;
  no_exit = unfold strings_equal in refl;
  parsed =
      parse_cli-line (λ p. pos 0) (λ n. 0 ∷ zeros n) 42 22 show (multicast ∷ groups ∷ [])
        (0 ∷ 9 ∷ []) list_groups-words (omega arith) (omega arith) refl (omega arith);
  waits = refl;
  asks = record { asks = refl; free = (omega arith, tt); low = omega arith; high = omega arith };
  replies = record {
    shown = ((((refl, omega arith), (omega arith, tt)), refl), tt);
    enough = omega arith;
    some_bytes = omega arith;
    small = omega arith;
  };
}

-- Two commands, and "exit" three times.
cli_main-session_example :
    cli_main console 42 3 (fresh (list_clients ∷ list_groups ∷ []) unused)
    ≡ ok (
        at
          (after_asking console (list_clients ∷ list_groups ∷ []) unused)
          (banner_lines
            ++ (prompt_line
                ∷ clients_line
                ∷ value_line (b'A' ∷ [])
                ∷ goodbye_line
                ∷ prompt_line
                ∷ groups_line
                ∷ value_line (b'B' ∷ [])
                ∷ goodbye_line
                ∷ prompt_line
                ∷ end_line
                ∷ prompt_line
                ∷ end_line
                ∷ prompt_line
                ∷ end_line
                ∷ []))
          []
          [])
unfolding command
cli_main-session_example =
    cli_main-session console 40 (λ k n. refl) (list_clients ∷ list_groups ∷ []) 0 unused
      (list_clients-IsExchange, (list_groups-IsExchange, tt))

cli_main-end_of_input_example :
    cli_main console 42 100 (ended unused (record { exec = false; printed = [] }) false [])
    ≡ out_of_fuel
cli_main-end_of_input_example =
    cli_main-end_of_input console 42 100 unused (record { exec = false; printed = [] }) false []
