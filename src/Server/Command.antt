-- ===== src/Server/Command.antt =====
-- `sh_parse_cmd` of server/src/server_helper.c, with `strtok` on the delimiter '|'. The string is
-- copied into an array of 100 bytes first. A use of NULL, which `strtok` returns where no token is
-- left, is a `fault`.
use pyramid.Prelude.{
  ℕ, Option, none, some, [], ◌∷◌, ◌++◌, length, leb, ◌==◌, if◌then◌else◌, ℤ, pos, negsuc,
}
use pyramid.Wire.{Run, ok, fault, ◌>>=◌, Bytes}
use pyramid.Tlv.Attribute.{good_bye}
use pyramid.Strtok.{before_delim, leading_delims, skip_delims, strtok_r}
use pyramid.Central.{text}
use pyramid.Server.{System, Server, Work, send_to}
use pyramid.Server.Display.{sh_display_all_multicast_groups, sh_display_all_clients}
use pyramid.Server.Replies.{
  sh_display_job_details, sh_display_job_results, sh_set_repository, sh_set_job_timeout,
  sh_set_job_queue_size,
}

-- A token that the source uses without a test.
abbrev pub required : Option (Bytes × Bytes) → Run (Bytes × Bytes)
required none = fault
required (some token) = ok token

unfoldable pub strtok : Bytes → Run (Bytes × Bytes)
unfolding strtok_r
strtok saved = required (strtok_r 124 saved)

-- What `buf` holds as a C string once the first token is taken.
unfoldable pub first_part : Bytes → Bytes
unfolding leading_delims skip_delims before_delim
first_part chars = leading_delims 124 chars ++ before_delim 124 (skip_delims 124 chars)

module _ {P : Type 0} (sys : System P) (fuel : ℕ) where
  -- SET_REPOSITORY and EXEC_JOB, from the string that is left.
  unfoldable pub set_repository : ℕ → Bytes → Server P → Run (Server P)
  unfolding strtok sh_set_repository
  set_repository cfd saved s = do
    (repo, r1) ← strtok saved
    (path, r2) ← strtok r1
    (user, r3) ← strtok r2
    (pwd, r4) ← strtok r3
    sh_set_repository sys fuel cfd repo path user pwd s

  unfoldable pub exec_job : ℕ → Bytes → Server P → Run (Server P)
  unfolding strtok
  exec_job cfd saved s = do
    (task, r1) ← strtok saved
    (group, r2) ← strtok r1
    (input_file, r3) ← strtok r2
    let work : Work = record {
      task = sys.number task;
      cfd = cfd;
      group = sys.number group;
      input_file = input_file ++ (0 ∷ []);
    }
    ok (record s { g_thpool = sys.thpool_add_work work s.g_thpool })

  -- The commands with one number.
  unfoldable pub with_number : (ℤ → Server P → Run (Server P)) → Bytes → Server P → Run (Server P)
  unfolding strtok
  with_number f saved s = do (n, r) ← strtok saved; f (sys.number n) s

  -- The switch.
  unfoldable pub run_opcode : ℕ → ℕ → Bytes → Server P → Run (Server P)
  unfolding set_repository exec_job with_number
  run_opcode cfd opcode saved s =
      if opcode == 0
      then sh_display_all_multicast_groups sys fuel cfd s
      else if opcode == 1
      then sh_display_all_clients sys fuel cfd s
      else if opcode == 2
      then with_number (sh_display_job_details sys fuel cfd) saved s
      else if opcode == 3
      then with_number (sh_display_job_results sys fuel cfd) saved s
      else if opcode == 4
      then exec_job cfd saved s
      else if opcode == 5
      then set_repository cfd saved s
      else if opcode == 6
      then with_number (sh_set_job_timeout sys fuel cfd) saved s
      else if opcode == 7
      then with_number (sh_set_job_queue_size sys fuel cfd) saved s
      else ok s

  abbrev pub run_number : ℕ → ℤ → Bytes → Server P → Run (Server P)
  run_number cfd (pos opcode) saved s = run_opcode cfd opcode saved s
  run_number cfd (negsuc n) saved s = ok s

  unfoldable pub sh_parse_cmd : ℕ → Bytes → Server P → Run (Server P)
  unfolding run_opcode strtok first_part send_to text
  sh_parse_cmd cfd buff s = do
    chars ← text buff
    let parsed = (do
      (opcode, saved) ← strtok chars
      s1 ← run_number cfd (sys.number opcode) saved s
      send_to sys fuel cfd (first_part chars ++ (0 ∷ [])) good_bye s1)
    if leb 100 (length chars) then fault else parsed
