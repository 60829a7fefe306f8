-- ===== src/Jobs/Assign.antt =====
-- server/src/jobs.c: `assignJob` and `assign_pending_job`, which tell clients their parts.
use pyramid.Prelude.{
  ℕ, zero, suc, ◌+◌, ◌/◌, ◌%◌, Bool, true, false, ◌||◌, [], ◌∷◌, ◌++◌, ltb, if◌then◌else◌, update,
  ℤ, pos, negsuc, take,
}
use pyramid.Wire.{Run, ok, out_of_fuel, ◌>>=◌, Bytes}
use pyramid.Links.{is_null, deref}
use pyramid.Jobs.{Jobs, get_client_node, free_node}

-- `%d` of a number that is not negative, by its digits.
unfoldable pub digits : ℕ → ℕ → Bytes
digits zero n = []
digits (suc fuel) n =
    let rest = digits fuel (n / 10) in
    if ltb n 10 then (48 + n) ∷ [] else rest ++ ((48 + n % 10) ∷ [])

unfoldable pub decimal : ℕ → Bytes
unfolding digits
decimal n = digits (suc n) n

unfoldable pub show_int : ℤ → Bytes
unfolding decimal
show_int (pos n) = decimal n
show_int (negsuc n) = b'-' ∷ decimal (suc n)

-- "%d%d%d" of index/100, index/10 and index%10
unfoldable pub part_number : ℕ → Bytes
unfolding decimal
part_number index = decimal (index / 100) ++ (decimal (index / 10) ++ decimal (index % 10))

-- "job_" and "/prob/input_p"
abbrev pub job_prefix : Bytes
job_prefix = b'j' ∷ b'o' ∷ b'b' ∷ b'_' ∷ []

abbrev pub input_prefix : Bytes
input_prefix =
    b'/' ∷ b'p' ∷ b'r' ∷ b'o' ∷ b'b' ∷ b'/' ∷ b'i' ∷ b'n' ∷ b'p' ∷ b'u' ∷ b't' ∷ b'_' ∷ b'p' ∷ []

-- `ip` and `jd` are the strings of `cntrl_srv_get_central_repo_ip` and `cntrl_srv_get_job_directory`.
module _ (ip jd : Bytes) where
  -- The string that `snprintf` leaves in the 2048 bytes of `buffer`.
  pub part_path : ℤ → ℕ → Bytes
  unfolding part_number show_int
  part_path id index =
      take 2047 (
        ip ++ (b':' ∷ (jd ++ (job_prefix ++ (show_int id ++ (input_prefix ++ part_number index))))))

  -- `sh_send_encoded_data(client->cfd, buffer, taskType)`
  unfoldable pub send_part : ℕ → ℕ → ℕ → Jobs → Run Jobs
  unfolding part_path
  send_part client jn index s = do
    _ ← deref s.clients.ci_live client
    ok (record s {
      sent = s.sent ++ (s.clients.cfd client, part_path (s.id jn) index, s.task_type jn) ∷ [];
    })

  unfoldable pub assign_pending_job : ℕ → ℕ → ℕ → ℕ → Jobs → Run (Bool × Jobs)
  unfolding send_part
  assign_pending_job fuel jn cn reassign2client s =
      let checked = (do
        reassign2cn ← get_client_node fuel jn reassign2client s
        let found = (do
          _ ← deref s.cn_live cn
          let i = s.index cn
          s1 ← free_node cn (record s { index = update s.index reassign2cn i })
          _ ← deref s1.cn_live reassign2cn
          s2 ← send_part (s1.client reassign2cn) jn i s1
          ok (true, s2))
        if is_null reassign2cn then ok (false, s) else found) in
      if is_null jn || is_null cn || is_null reassign2client then ok (false, s) else checked

  -- `while (current)`, with the counter `i`.
  unfoldable pub assign_from : ℕ → ℕ → ℕ → ℕ → Jobs → Run Jobs
  unfolding send_part
  assign_from zero current jn i s = out_of_fuel
  assign_from (suc fuel) current jn i s =
      let round = (do
        _ ← deref s.cn_live current
        s1 ← send_part (s.client current) jn i (record s { index = update s.index current i })
        assign_from fuel (s1.cn_next current) jn (i + 1) s1) in
      if is_null current then ok s else round

  unfoldable pub assign_job : ℕ → ℕ → Jobs → Run (Bool × Jobs)
  unfolding assign_from
  assign_job fuel jn s = do
    _ ← deref s.jn_live jn
    _ ← deref s.cn_live (s.job_head jn)
    s' ← assign_from fuel (s.cn_next (s.job_head jn)) jn 0 s
    ok (true, s')
