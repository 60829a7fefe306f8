-- ===== src/Cli/Rounds.antt =====
-- A round of the loop of `cli_main` of client/src/cli_commands.c, for each kind of line.
use pyramid.Prelude.{
  ℕ, zero, suc, ◌+◌, ◌<◌, ◌≤◌, ◌≡◌, ◌≢◌, refl, true, false, List, [], ◌∷◌, ◌++◌, map, replicate,
  arith, leb, length-append, length, All-append, append_assoc, Bool,
}
use pyramid.Wire.{Run, ok, out_of_fuel, ◌>>=◌, Bytes}
use pyramid.Wire.Laws.{NulFree, c_string-NulFree}
use pyramid.Tlv.Attribute.{cli_data}
use pyramid.Messages.Stream.{Message}
use pyramid.Messages.Network.{Screen, say}
use pyramid.Messages.Reply.{texts, reply}
use pyramid.Receive.{Received, bytes}
use pyramid.Sending.{Socket}
use pyramid.Sending.Laws.{after_frame}
use pyramid.Cli.{Command, strings_equal}
use pyramid.Cli.Requests.{parse_cli}
use pyramid.Cli.Screens.{prompt_line, end_line}
use pyramid.Cli.Session.{
  Terminal, Console, fgets, cut_last, exit_word, run_command, run_line, prompt_loop, open_interface,
}
use pyramid.Cli.Dialogue.{cut_last-append, asks_and_waits, before, after, at, IsAsking, IsReply}

-- What is typed, the command that is chosen for it, the string that this sends with what stands behind it in its array, and what
-- the server answers.
pub record Exchange : Type 0 where
  pub line : Bytes
  pub chosen : Command
  pub asked : Bytes
  pub padding : Bytes
  pub answer : List Message

abbrev pub typed : Exchange → Bytes
typed e = e.line ++ 10 ∷ []

abbrev pub exit_line : Bytes
exit_line = exit_word ++ 10 ∷ []

pub record IsExchange (c : Console) (f : ℕ) (e : Exchange) : Type 0 where
  pub free : NulFree e.line
  pub some_char : 0 < length e.line
  pub short : length e.line < 99
  pub no_exit : strings_equal e.line exit_word ≡ false
  pub parsed : parse_cli c.number c.block (suc (suc f)) (e.line ++ (0 ∷ 0 ∷ c.stack)) ≡ ok e.chosen
  pub waits : asks_and_waits (e.chosen) ≡ true
  pub asks : IsAsking (e.chosen) e.asked e.padding
  pub replies : IsReply f e.answer

-- The lines that are typed: every command, and then "exit" once for each command and once more.
abbrev pub inputs : List Exchange → List Bytes → List Bytes
inputs [] more = exit_line ∷ more
inputs (e ∷ es) more = typed e ∷ inputs es (exit_line ∷ more)

abbrev pub answers : List Exchange → List Received → List Received
answers [] more = more
answers (e ∷ es) more = bytes (reply e.answer) ∷ answers es more

-- The terminal of a process that starts: nothing is printed, and the input is every command and
-- then "exit" once for each of them and once more.
abbrev pub fresh : List Exchange → Socket → Terminal
fresh es k = record {
  socket = k;
  screen = record { exec = false; printed = [] };
  init_cli_interface = false;
  input = map typed es ++ replicate (length es + 1) exit_line;
  incoming = map (λ e. bytes (reply e.answer)) es;
}

-- A terminal whose input has ended.
abbrev pub ended : Socket → Screen → Bool → List Received → Terminal
ended k screen opened rs = record {
  socket = k;
  screen = screen;
  init_cli_interface = opened;
  input = [];
  incoming = rs;
}

pub waits :
    (c : Console) (f rounds : ℕ) (k : Socket) (screen : Screen) (opened : Bool) (rs : List Received)
    → prompt_loop c f rounds (ended k screen opened rs) ≡ out_of_fuel
unfolding prompt_loop
waits c f zero k screen opened rs = refl
waits c f (suc n) k screen opened rs = waits c f n k (say prompt_line screen) opened rs

fgets-short :
    (line : Bytes) (lines : List Bytes) → length line ≤ 99 → fgets line lines ≡ (line, lines)
unfolding fgets
fgets-short line lines h = let fits : leb (length line) 99 ≡ true = ground arith in rw fits refl

exit_line-NulFree : NulFree exit_line
exit_line-NulFree = (omega arith, (omega arith, (omega arith, (omega arith, (omega arith, tt)))))

-- What is printed: the loops that the commands have opened end one inside the other.
abbrev pub shown : List Exchange → List Bytes
shown [] = prompt_line ∷ end_line ∷ []
shown (e ∷ es) =
    (prompt_line ∷ before (e.chosen))
    ++ (texts e.answer ++ (shown es ++ (after (e.chosen) ++ (prompt_line ∷ end_line ∷ []))))

module _ (c : Console) where
  -- One frame for each command.
  abbrev pub after_asking : List Exchange → Socket → Socket
  after_asking [] k = k
  after_asking (e ∷ es) k = after_asking es (after_frame c.send cli_data e.asked k)

  module _ (fuel : ℕ) where
    pub ends :
        (n : ℕ) (k : Socket) (printed input : List Bytes) (rs : List Received)
        → prompt_loop c fuel (suc n) (at k printed (exit_line ∷ input) rs)
          ≡ ok (at k (printed ++ (prompt_line ∷ end_line ∷ [])) input rs)
    unfolding prompt_loop strings_equal cut_last
    ends n k printed input rs =
        rw
          (
            c_string-NulFree exit_line exit_line-NulFree,
            append_assoc printed (prompt_line ∷ []) (end_line ∷ []),
          )
          refl

    pub runs :
        (str : Bytes) (n : ℕ) (k : Socket) (printed input : List Bytes) (rs : List Received)
        → NulFree str
        → length str < 99
        → strings_equal str exit_word ≡ false
        → prompt_loop c fuel (suc n) (at k printed ((str ++ 10 ∷ []) ∷ input) rs) ≡ (
            run_line c fuel
              (λ t. prompt_loop c fuel n (open_interface c fuel t))
              str
              (at k (printed ++ prompt_line ∷ []) input rs)
            >>= prompt_loop c fuel n)
    unfolding prompt_loop
    runs str n k printed input rs free short other =
        let short_line : length (str ++ 10 ∷ []) ≤ 99 =
          omega (arith, length-append str (10 ∷ [])) in
        rw
          (
            fgets-short (str ++ 10 ∷ []) input short_line,
            c_string-NulFree (str ++ 10 ∷ [])
                (All-append (λ b. b ≢ 0) str (10 ∷ []) free (omega arith, tt)),
            cut_last-append str 10,
          )
          (rw (◌>>=◌, other, fgets-short (str ++ 10 ∷ []) input short_line) refl)

    pub word_first :
        (main : Terminal → Run Terminal) (str : Bytes) (t : Terminal)
        → 0 < length str
        → run_line c fuel main str t ≡ (
            parse_cli c.number c.block fuel (str ++ (0 ∷ 0 ∷ c.stack)) >>= λ cmd.
            run_command c fuel main cmd t)
    unfolding run_line
    word_first main [] t low = absurd (omega arith)
    word_first main (a ∷ str) t low = refl

    pub opened_before :
        (k : Socket) (printed input : List Bytes) (rs : List Received)
        → open_interface c fuel (at k printed input rs) ≡ at k printed input rs
    unfolding open_interface
    opened_before k printed input rs = refl
