-- ===== src/Cli/Conversation.antt =====
-- `cli_main` of client/src/cli_commands.c on commands that the server answers.
use pyramid.Prelude.{
  ℕ, zero, suc, ◌+◌, ◌≡◌, refl, sym, ap, ◌∙◌, true, false, some, List, [], ◌∷◌, ◌++◌, arith, length,
  All, append_assoc, append-nil, map, Bool, replicate,
}
use pyramid.Wire.{Run, ok, out_of_fuel, ◌>>=◌, Bytes}
use pyramid.Tlv.Attribute.{cli_data}
use pyramid.Messages.Network.{Screen}
use pyramid.Messages.Reply.{texts, reply}
use pyramid.Receive.{Received, bytes}
use pyramid.Sending.{Socket}
use pyramid.Sending.Laws.{after_frame}
use pyramid.Cli.{Command}
use pyramid.Cli.Words.{rounds}
use pyramid.Cli.Screens.{prompt_line, banner_lines}
use pyramid.Cli.Session.{
  Terminal, Console, run_command, run_line, prompt_loop, open_interface, cli_main,
}
use pyramid.Cli.Dialogue.{before, after, at, run_command-reply}
use pyramid.Cli.Rounds.{
  Exchange, typed, exit_line, IsExchange, inputs, answers, ended, fresh, waits, after_asking, shown,
  ends, runs, word_first, opened_before,
}

replicate-append :
    (n m : ℕ) (a : Bytes) (more : List Bytes)
    → m ≡ suc n
    → replicate n a ++ (a ∷ more) ≡ replicate m a ++ more
replicate-append zero m a more e = rw e refl
replicate-append (suc n) m a more e =
    ap (λ (l : List Bytes). a ∷ l) (replicate-append n (suc n) a more refl)
    ∙ ap (λ (i : ℕ). replicate i a ++ more) (sym e)

module _ (c : Console) where
  module _ (f : ℕ) (takes : (k n : ℕ) → c.send k n ≡ some n) where
    abbrev fuel : ℕ
    fuel = suc (suc f)

    run_line-command :
        (main : Terminal → Run Terminal) (e : Exchange) (t : Terminal)
        → IsExchange c f e
        → run_line c fuel main e.line t ≡ run_command c fuel main (e.chosen) t
    run_line-command main e t h =
        word_first c fuel main e.line t h.some_char
        ∙ ap (λ (r : Run Command). r >>= λ cmd. run_command c fuel main cmd t) h.parsed

    loop-shown :
        (es : List Exchange) (n : ℕ) (k : Socket) (printed input : List Bytes) (rs : List Received)
        → All (IsExchange c f) es
        → prompt_loop c fuel (suc (length es + n)) (at k printed (inputs es input) (answers es rs))
          ≡ ok (at (after_asking c es k) (printed ++ shown es) input rs)
    loop-shown [] n k printed input rs h = ends c fuel (0 + n) k printed input rs
    loop-shown (e ∷ es) n k printed input rs (h, hs) =
        let m : ℕ = suc (length es + n) in
        let main : Terminal → Run Terminal = λ t. prompt_loop c fuel m (open_interface c fuel t) in
        let cmd = e.chosen in
        let asked : Socket = after_frame c.send cli_data e.asked k in
        let opened : List Bytes = printed ++ prompt_line ∷ [] in
        let told : List Bytes = (opened ++ before cmd) ++ texts e.answer in
        let rest : List Bytes = inputs es (exit_line ∷ input) in
        let here : List Received = bytes (reply e.answer) ∷ answers es rs in
        let inner : main (at asked told rest (answers es rs))
            ≡ ok (at (after_asking c es asked) (told ++ shown es) (exit_line ∷ input) rs) =
          ap (prompt_loop c fuel m) (opened_before c fuel asked told rest (answers es rs))
          ∙ loop-shown es n asked told (exit_line ∷ input) rs hs in
        ap (λ (r : ℕ). prompt_loop c fuel (suc r) (at k printed (typed e ∷ rest) here))
          (let same : suc (length es) + n ≡ m = omega arith in same)
        ∙ (runs c fuel e.line m k printed rest here h.free h.short h.no_exit
            ∙ (ap (λ (r : Run Terminal). r >>= prompt_loop c fuel m)
                  (run_line-command main e (at k opened rest here) h
                    ∙ run_command-reply c f takes main cmd e.asked e.padding e.answer k
                        (after_asking c es asked) opened rest (told ++ shown es) (exit_line ∷ input)
                        (answers es rs) rs h.waits h.asks h.replies inner)
                ∙ (ends c fuel (length es + n) (after_asking c es asked)
                      ((told ++ shown es) ++ after cmd) input rs
                    ∙ ap (λ (p : List Bytes). ok (at (after_asking c es asked) p input rs))
                        (simp append_assoc))))

    inputs-append :
        (es : List Exchange) (more : List Bytes)
        → inputs es more ≡ map typed es ++ (replicate (length es + 1) exit_line ++ more)
    inputs-append [] more = refl
    inputs-append (e ∷ es) more =
        ap (λ (l : List Bytes). typed e ∷ l)
          (inputs-append es (exit_line ∷ more)
            ∙ ap (λ (l : List Bytes). map typed es ++ l)
                (replicate-append (length es + 1) (length (e ∷ es) + 1) exit_line more
                  (omega arith)))

    answers-map : (es : List Exchange) → answers es [] ≡ map (λ e. bytes (reply e.answer)) es
    answers-map [] = refl
    answers-map (e ∷ es) = ap (λ (l : List Received). bytes (reply e.answer) ∷ l) (answers-map es)

    -- A session: `cli_main` prints the banner, takes the commands one by one, sends one frame for
    -- each, prints its reply, and returns once "exit" was typed once more than there were commands,
    -- because `receive_data` calls `cli_main` again. Each line has 1 to 98 characters, and `parse_cli`
    -- turns it into a command that asks the server and waits; the command's string has 1 to 79
    -- characters, `send` takes every frame whole, and each reply is some texts and GOOD_BYE, below
    -- 1024 bytes, which one `recv` returns.
    pub cli_main-session :
        (es : List Exchange) (n : ℕ) (k : Socket)
        → All (IsExchange c f) es
        → cli_main c fuel (suc (length es + n)) (fresh es k)
          ≡ ok (at (after_asking c es k) (banner_lines ++ shown es) [] [])
    unfolding cli_main open_interface
    cli_main-session es n k h =
        ap
          (λ (l : List Bytes).
            prompt_loop c fuel (suc (length es + n))
              (at k banner_lines l (map (λ e. bytes (reply e.answer)) es)))
          (sym (inputs-append es [] ∙ ap (λ (l : List Bytes). map typed es ++ l) (append-nil _)))
        ∙ (ap
              (λ (l : List Received).
                prompt_loop c fuel (suc (length es + n)) (at k banner_lines (inputs es []) l))
              (sym (answers-map es))
            ∙ loop-shown es n k banner_lines [] [] h)

-- At the end of the input, where `fgets` returns NULL, `cli_main` does not return, whatever number of
-- rounds its loop is given.
pub cli_main-end_of_input :
    (c : Console) (f rounds : ℕ) (k : Socket) (screen : Screen) (opened : Bool) (rs : List Received)
    → cli_main c f rounds (ended k screen opened rs) ≡ out_of_fuel
unfolding cli_main open_interface
cli_main-end_of_input c f rounds k screen true rs = waits c f rounds k screen true rs
cli_main-end_of_input c f rounds k screen false rs =
    waits c f rounds k (record screen { printed = screen.printed ++ banner_lines }) true rs
