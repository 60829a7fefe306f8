-- ===== src/Server/Display.antt =====
-- server/src/server_helper.c: texts that are collected in a buffer of 1024 bytes and sent when the
-- next one does not fit, and the two lists that are shown in this way.
use pyramid.Prelude.{ℕ, zero, suc, ◌+◌, ◌-◌, [], ◌∷◌, ◌++◌, length, leb, ◌==◌, if◌then◌else◌}
use pyramid.Wire.{Run, ok, out_of_fuel, ◌>>=◌, Bytes, store}
use pyramid.Tlv.Attribute.{cli_data}
use pyramid.Links.{is_null, deref}
use pyramid.Jobs.Assign.{decimal}
use pyramid.Central.{text}
use pyramid.Server.{System, Server, snprintf, send_to}

-- The texts of one entry: "\ngid %u : %d " and "%d ".
unfoldable pub group_entry : ℕ → ℕ → Bytes
unfolding decimal
group_entry gid cfd =
    (10 ∷ b'g' ∷ b'i' ∷ b'd' ∷ 32 ∷ [])
    ++ (decimal gid ++ ((32 ∷ b':' ∷ 32 ∷ []) ++ (decimal cfd ++ (32 ∷ []))))

unfoldable pub client_entry : ℕ → Bytes
unfolding decimal
client_entry cfd = decimal cfd ++ (32 ∷ [])

module _ {P : Type 0} (sys : System P) (fuel : ℕ) where
  -- The buffer, its count `tc` and the server.
  unfoldable pub sh_try_to_send_data :
      ℕ → Bytes → Bytes → ℕ → ℕ → ℕ → Server P → Run (Bytes × ℕ × Server P)
  unfolding send_to text
  sh_try_to_send_data fd dest src tc c type s = do
    let full = leb 1024 (tc + c + 1)
    s1 ← if full then send_to sys fuel fd dest type s else ok s
    let at = if full then 0 else tc
    chars ← text src
    dest' ← store dest at (chars ++ (0 ∷ []))
    ok (dest', at + length chars, s1)

  -- `snprintf` and `sh_try_to_send_data`, for one text.
  unfoldable pub add_text : ℕ → Bytes → ℕ → Bytes × ℕ × Server P → Run (Bytes × ℕ × Server P)
  unfolding sh_try_to_send_data
  add_text fd line type (dest, tc, s) =
      sh_try_to_send_data fd dest (snprintf line) tc (length line) type s

  -- `if (tc) sh_send_encoded_data(...)`
  unfoldable pub send_rest : ℕ → ℕ → Bytes × ℕ × Server P → Run (Server P)
  unfolding send_to
  send_rest fd type (dest, tc, s) = if tc == 0 then ok s else send_to sys fuel fd dest type s

  -- `FOR_ALL_GROUP_IDS` from the node `cg` on.
  unfoldable pub show_group : ℕ → ℕ → ℕ → Bytes × ℕ × Server P → Run (Bytes × ℕ × Server P)
  unfolding add_text group_entry
  show_group zero fd cg b = out_of_fuel
  show_group (suc k) fd cg b =
      let c = b.2.jobs.clients in
      let g = c.groups in
      let round = (do
        _ ← deref g.cg_live cg
        _ ← deref c.ci_live (g.ci cg)
        b' ← add_text fd (group_entry (g.gid cg) (c.cfd (g.ci cg))) cli_data b
        show_group k fd (g.n cg) b') in
      if is_null cg then ok b else round

  -- `FOR_ALL_MULTICAST_GROUPS` with `n` groups left.
  unfoldable pub show_groups : ℕ → ℕ → Bytes × ℕ × Server P → Run (Bytes × ℕ × Server P)
  unfolding show_group
  show_groups zero fd b = ok b
  show_groups (suc n) fd b = do
    b' ← show_group fuel fd (b.2.jobs.clients.groups.h (1000 - suc n)) b
    show_groups n fd b'

  unfoldable pub sh_display_all_multicast_groups : ℕ → Server P → Run (Server P)
  unfolding show_groups send_rest
  sh_display_all_multicast_groups cfd s = do
    b ← show_groups 1000 cfd (sys.stack, 0, s)
    send_rest cfd cli_data b

  -- The inner loop of `FOR_ALL_CLIENT_FDS`.
  unfoldable pub show_bucket : ℕ → ℕ → ℕ → Bytes × ℕ × Server P → Run (Bytes × ℕ × Server P)
  unfolding add_text client_entry
  show_bucket zero fd ci b = out_of_fuel
  show_bucket (suc k) fd ci b =
      let c = b.2.jobs.clients in
      let round = (do
        _ ← deref c.ci_live ci
        b' ← add_text fd (client_entry (c.cfd ci)) cli_data b
        show_bucket k fd (c.r ci) b') in
      if is_null ci then ok b else round

  unfoldable pub show_buckets : ℕ → ℕ → Bytes × ℕ × Server P → Run (Bytes × ℕ × Server P)
  unfolding show_bucket
  show_buckets zero fd b = ok b
  show_buckets (suc n) fd b = do
    b' ← show_bucket fuel fd (b.2.jobs.clients.heads (255 - suc n)) b
    show_buckets n fd b'

  unfoldable pub sh_display_all_clients : ℕ → Server P → Run (Server P)
  unfolding show_buckets send_rest
  sh_display_all_clients cfd s = do
    b ← show_buckets 255 cfd (sys.stack, 0, s)
    send_rest cfd cli_data b
