-- ===== src/Central.antt =====
-- common/src/central_server.h and common/src/central_server.c: the settings of the repository that
-- holds the jobs' files, and the call of the script that divides a file. A setting is a character
-- array; `system` of the C library is a parameter that says whether its result is 0.
use pyramid.Prelude.{Bool, false, ◌&&◌, [], ◌∷◌, ◌++◌, if◌then◌else◌, ℤ, pos, leb_ℤ, take}
use pyramid.Wire.{Run, ok, ◌>>=◌, Bytes, fetch}
use pyramid.Sending.{strlen}
use pyramid.Jobs.Assign.{show_int}

pub record Settings : Type 0 where
  pub central_repo_ip : Bytes
  pub job_directory : Bytes
  pub username : Bytes
  pub passwd : Bytes
  pub job_timeout : ℤ
  pub job_queue_size : ℤ

-- The C string in an array, as `%s` and `strcpy` read it: without a NUL they read past the end.
unfoldable pub text : Bytes → Run Bytes
unfolding strlen
text array = do n ← strlen array; fetch n array

-- The parts of the command between its arguments.
abbrev sshpass : Bytes
sshpass = b's' ∷ b's' ∷ b'h' ∷ b'p' ∷ b'a' ∷ b's' ∷ b's' ∷ 32 ∷ b'-' ∷ b'p' ∷ []

abbrev ssh : Bytes
ssh =
    32 ∷ b's' ∷ b's' ∷ b'h' ∷ 32 ∷ b'-' ∷ b'o' ∷ 32 ∷ b'S' ∷ b't' ∷ b'r' ∷ b'i' ∷ b'c' ∷ b't' ∷ b'H'
    ∷ b'o' ∷ b's' ∷ b't' ∷ b'K' ∷ b'e' ∷ b'y' ∷ b'C' ∷ b'h' ∷ b'e' ∷ b'c' ∷ b'k' ∷ b'i' ∷ b'n'
    ∷ b'g' ∷ b'=' ∷ b'n' ∷ b'o' ∷ 32 ∷ []

abbrev script : Bytes
script =
    32 ∷ b'/' ∷ b'h' ∷ b'o' ∷ b'm' ∷ b'e' ∷ b'/' ∷ b'r' ∷ b'e' ∷ b'p' ∷ b'o' ∷ b's' ∷ b'i' ∷ b't'
    ∷ b'o' ∷ b'r' ∷ b'y' ∷ b'/' ∷ b'c' ∷ b'o' ∷ b'h' ∷ b'o' ∷ b'r' ∷ b't' ∷ b'/' ∷ b'd' ∷ b'o'
    ∷ b's' ∷ b'.' ∷ b's' ∷ b'h' ∷ 32 ∷ []

module _ (system : Bytes → Bool) (settings : Settings) where
  -- The string in `sshcmd`, of 2048 bytes.
  pub divide_command : Bytes → ℤ → ℤ → Run Bytes
  unfolding text
  divide_command path job_id n = do
    pwd ← text settings.passwd
    user ← text settings.username
    ip ← text settings.central_repo_ip
    ok (
        take 2047 (
          sshpass
          ++ (pwd
              ++ (ssh
                  ++ (user
                      ++ ((b'@' ∷ ip)
                          ++ (script
                              ++ (show_int n ++ ((32 ∷ show_int job_id) ++ (32 ∷ path))))))))))

  -- Is the result SUCCESS?
  unfoldable pub db_server_divide : Bytes → ℤ → ℤ → Run Bool
  unfolding divide_command
  db_server_divide path job_id n =
      let called = (do command ← divide_command path job_id n; ok (system command)) in
      if leb_ℤ n (pos 0) && leb_ℤ (pos 0) n then ok false else called
