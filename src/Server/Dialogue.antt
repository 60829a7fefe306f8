-- ===== src/Server/Dialogue.antt =====
-- A command from the request of client/src/cli_commands.c over `sh_parse_cmd` of
-- server/src/server_helper.c to what `handleNetworkMessage` shows of the reply.
use pyramid.Prelude.{
  ℕ, suc, ◌+◌, ◌<◌, ◌≤◌, ◌≡◌, ◌≢◌, refl, ap, ◌∙◌, false, some, [], ◌∷◌, ◌++◌, arith, length,
  length-append, All-append, IsInt, as_int-of_IsInt, leb, ℤ, pos, inl, inr,
}
use pyramid.Wire.{Run, ok, ◌>>=◌, Bytes}
use pyramid.Wire.Laws.{NulFree}
use pyramid.Tlv.Attribute.{good_bye, cli_data}
use pyramid.Sending.Laws.{after_frame}
use pyramid.Jobs.Assign.{show_int}
use pyramid.Strtok.Words.{
  IsWord, before_delim-append, skip_delims-word, leading_delims-word, strtok_r-append,
  strtok_r-last,
}
use pyramid.Server.{System, Server, send_to}
use pyramid.Server.Replies.{sh_set_job_queue_size}
use pyramid.Server.Command.{
  required, strtok, first_part, run_number, run_opcode, with_number, sh_parse_cmd,
}
use pyramid.Server.Chunks.{put_socket, text-append}
use pyramid.Server.Entries.{
  IsInt-magnitude, magnitude, show_int-length, show_int-All, show_int-NulFree, NulFree-text,
}
use pyramid.Server.Answers.{after_goodbye, send_to-goodbye, reply-frame}

abbrev BarFree : Bytes → Type 0
BarFree = IsWord 124

-- A word that is not empty, with a bar behind it, is the first token.
strtok-bar : (p rest : Bytes) → BarFree p → 0 < length p → strtok (p ++ (124 ∷ rest)) ≡ ok (p, rest)
unfolding strtok
strtok-bar p rest h low = ap required (strtok_r-append 124 p rest h low)

strtok-last : (p : Bytes) → BarFree p → 0 < length p → strtok p ≡ ok (p, [])
unfolding strtok
strtok-last p h low = ap required (strtok_r-last 124 p h low)

first_part-bar : (p rest : Bytes) → BarFree p → 0 < length p → first_part (p ++ (124 ∷ rest)) ≡ p
unfolding first_part
first_part-bar [] rest h low = absurd (omega arith)
first_part-bar (c ∷ p) rest h low =
    let all : Bytes = p ++ (124 ∷ rest) in
    rw
      (
        leading_delims-word 124 c all h.0,
        skip_delims-word 124 c all h.0,
        before_delim-append 124 (c ∷ p) rest h,
      )
      refl

-- A command as the client writes it: a number, a bar and the rest.
pub record IsCommand (op rest : Bytes) : Type 0 where
  pub op_free : NulFree op
  pub op_bars : BarFree op
  pub op_low : 0 < length op
  pub op_high : length op ≤ 15
  pub rest_free : NulFree rest
  pub fits : length op + length rest < 99

module _ {P : Type 0} (sys : System P) (fuel fd : ℕ) where
  -- The command is run, and GOOD_BYE is sent behind whatever the command sent.
  sh_parse_cmd-bar :
      (op rest more : Bytes) (s : Server P)
      → IsCommand op rest
      → sh_parse_cmd sys fuel fd ((op ++ (124 ∷ rest)) ++ (0 ∷ more)) s ≡ (
          run_number sys fuel fd (sys.number op) rest s
          >>= send_to sys fuel fd (op ++ (0 ∷ [])) good_bye)
  unfolding sh_parse_cmd
  sh_parse_cmd-bar op rest more s is =
      let whole : Bytes = op ++ (124 ∷ rest) in
      let free : NulFree whole =
        All-append (λ b. b ≢ 0) op (124 ∷ rest) is.op_free (λ z. omega (arith, z), is.rest_free) in
      let size = length-append op (124 ∷ rest) in
      let room : leb 100 (length whole) ≡ false = ground (arith, is.fits) in
      rw
        (
          text-append whole more free,
          room,
          strtok-bar op rest is.op_bars is.op_low,
          first_part-bar op rest is.op_bars is.op_low,
        )
        refl

  -- A command with one number, which is not empty and has no bar.
  with_number-last :
      (g : ℤ → Server P → Run (Server P)) (word : Bytes) (s : Server P)
      → BarFree word
      → 0 < length word
      → with_number sys fuel g word s ≡ g (sys.number word) s
  unfolding with_number
  with_number-last g word s h low = rw (strtok-last word h low) refl

-- What the client shows for a new size of the queue.
pub queue_line : ℤ → Bytes
queue_line size =
    (10 ∷ b'J' ∷ b'o' ∷ b'b' ∷ 32 ∷ b'Q' ∷ b'u' ∷ b'e' ∷ b'u' ∷ b'e' ∷ 32 ∷ b's' ∷ b'i' ∷ b'z'
      ∷ b'e' ∷ 32 ∷ b's' ∷ b'e' ∷ b't' ∷ 32 ∷ b't' ∷ b'o' ∷ 32 ∷ [])
    ++ (show_int size ++ (32 ∷ []))

pub queue_line-fits :
    (size : ℤ)
    → magnitude size < 18446744073709551616
    → NulFree (queue_line size) × (0 < length (queue_line size)) × (length (queue_line size) ≤ 45)
unfolding queue_line
queue_line-fits size h =
    let front : Bytes =
      10 ∷ b'J' ∷ b'o' ∷ b'b' ∷ 32 ∷ b'Q' ∷ b'u' ∷ b'e' ∷ b'u' ∷ b'e' ∷ 32 ∷ b's' ∷ b'i' ∷ b'z'
      ∷ b'e' ∷ 32 ∷ b's' ∷ b'e' ∷ b't' ∷ 32 ∷ b't' ∷ b'o' ∷ 32 ∷ [] in
    let free : NulFree (show_int size) = show_int-NulFree size in
    let tail =
      All-append (λ b. b ≢ 0) (show_int size) (32 ∷ []) free (NulFree-text (32 ∷ []) refl) in
    let all =
      All-append (λ b. b ≢ 0) front (show_int size ++ (32 ∷ [])) (NulFree-text front refl) tail in
    let more = length-append (show_int size) (32 ∷ []) in
    let (low, high) = show_int-length size h in (all, omega arith, omega arith)

-- The words of a request for a size: "7" and the number.
queue-IsCommand :
    (size : ℤ) → magnitude size < 18446744073709551616 → IsCommand (b'7' ∷ []) (show_int size)
queue-IsCommand size h =
    let (low, high) = show_int-length size h in
    record {
      op_free = NulFree-text (b'7' ∷ []) refl;
      op_bars = (λ z. omega (arith, z), tt);
      op_low = omega arith;
      op_high = omega arith;
      rest_free = show_int-NulFree size;
      fits = omega arith;
    }

module _ {P : Type 0} (sys : System P) (f fd : ℕ)
    (takes : (c n : ℕ) → sys.send fd c n ≡ some n) where
  abbrev pub set_queue : ℤ → Server P → Server P
  set_queue size s =
      let settings = s.settings in record s { settings = record settings { job_queue_size = size } }

  sh_set_job_queue_size-frame :
      (size : ℤ) (s : Server P)
      → IsInt size
      → 1024 ≤ length sys.stack
      → sh_set_job_queue_size sys (suc (suc f)) fd size s
        ≡ ok (
            put_socket fd
              (set_queue size s)
              (after_frame (sys.send fd) cli_data (queue_line size) (s.sockets fd)))
  unfolding sh_set_job_queue_size queue_line
  sh_set_job_queue_size-frame size s h room =
      let (free, low, high) = queue_line-fits size (IsInt-magnitude size h) in
      rw (as_int-of_IsInt size h) (
        reply-frame sys f fd takes (queue_line size) cli_data (set_queue size s) (inr (inl refl))
          free low (omega arith) room)

  run_number-7 :
      (rest : Bytes) (s : Server P)
      → run_number sys (suc (suc f)) fd (pos 7) rest s
        ≡ with_number sys (suc (suc f)) (sh_set_job_queue_size sys (suc (suc f)) fd) rest s
  unfolding run_opcode
  run_number-7 rest s = refl

  -- "7", a bar and a number.
  pub sh_parse_cmd-set_job_queue_size :
      (size : ℤ) (more : Bytes) (s : Server P)
      → IsInt size
      → 1024 ≤ length sys.stack
      → sys.number (b'7' ∷ []) ≡ pos 7
      → sys.number (show_int size) ≡ size
      → sh_parse_cmd sys (suc (suc f)) fd (((b'7' ∷ []) ++ (124 ∷ show_int size)) ++ (0 ∷ more)) s
        ≡ ok (
            put_socket fd (set_queue size s) (
              after_goodbye
                (sys.send fd)
                (after_frame (sys.send fd) cli_data (queue_line size) (s.sockets fd))))
  sh_parse_cmd-set_job_queue_size size more s h room seven same =
      let fuel : ℕ = suc (suc f) in
      let bye : Server P → Run (Server P) = send_to sys fuel fd (b'7' ∷ 0 ∷ []) good_bye in
      let is = queue-IsCommand size (IsInt-magnitude size h) in
      let bars : BarFree (show_int size) =
        show_int-All (λ b. b ≢ 124) (λ d h z. omega (arith, z, h)) (λ z. omega (arith, z)) size in
      let word =
        with_number-last sys (suc (suc f)) fd (sh_set_job_queue_size sys (suc (suc f)) fd)
          (show_int size) s bars (show_int-length size (IsInt-magnitude size h)).0 in
      sh_parse_cmd-bar sys (suc (suc f)) fd (b'7' ∷ []) (show_int size) more s is
      ∙ ap (λ (n : ℤ). run_number sys fuel fd n (show_int size) s >>= bye) seven
      ∙ ap (λ (m : Run (Server P)). m >>= bye)
          (run_number-7 (show_int size) s
            ∙ word
            ∙ ap (λ (n : ℤ). sh_set_job_queue_size sys fuel fd n s) same
            ∙ sh_set_job_queue_size-frame size s h room)
      ∙ send_to-goodbye sys f fd takes (set_queue size s)
          (after_frame (sys.send fd) cli_data (queue_line size) (s.sockets fd)) (b'7' ∷ [])
          is.op_free is.op_low is.op_high
