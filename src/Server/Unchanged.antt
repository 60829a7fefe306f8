-- ===== src/Server/Unchanged.antt =====
-- What `sh_try_to_send_data` of server/src/server_helper.c leaves alone: the jobs and the registry.
use pyramid.Prelude.{
  ℕ, ◌+◌, ◌≡◌, inl, inr, refl, sym, ap, ◌∙◌, List, [], ◌∷◌, ◌++◌, length, leb, Bool-cases,
}
use pyramid.Wire.{Run, ok, store, ◌>>=◌, Bytes}
use pyramid.Wire.Laws.{bind_assoc, bind-cong, bind-eq-ok}
use pyramid.Sending.{Outcome, returned, exited, sh_send_encoded_data}
use pyramid.Central.{text}
use pyramid.Server.{System, Server, send_to, keep_socket, snprintf}
use pyramid.Server.Display.{sh_try_to_send_data, add_text}
use pyramid.Server.Chunks.{add_all}

module _ {P : Type 0} (sys : System P) (fuel fd : ℕ) where
  keep_socket-jobs :
      (s s' : Server P) (o : Outcome) → keep_socket sys fuel fd s o ≡ ok s' → s'.jobs ≡ s.jobs
  keep_socket-jobs s s' (returned k) e = cc
  keep_socket-jobs s s' (exited k) e = cc

  pub send_to-jobs :
      (chars : Bytes) (type : ℕ) (s s' : Server P)
      → send_to sys fuel fd chars type s ≡ ok s'
      → s'.jobs ≡ s.jobs
  unfolding send_to
  send_to-jobs chars type s s' e =
      let (o, _, kept) =
        bind-eq-ok (sh_send_encoded_data (sys.send fd) fuel chars type (s.sockets fd))
          (keep_socket sys fuel fd s) e in
      keep_socket-jobs s s' o kept

  -- The store of `add_text` once it has sent what it had to send.
  abbrev put_text : Bytes → Bytes → ℕ → Server P → Run (Bytes × ℕ × Server P)
  put_text dest src at s1 = do
    chars ← text src
    dest' ← store dest at (chars ++ (0 ∷ []))
    ok (dest', at + length chars, s1)

  put_text-server :
      (dest src : Bytes) (at : ℕ) (s1 : Server P) (b' : Bytes × ℕ × Server P)
      → put_text dest src at s1 ≡ ok b'
      → b'.2 ≡ s1
  put_text-server dest src at s1 b' e =
      let (chars, _, e1) =
        bind-eq-ok (text src)
          (λ chars. store dest at (chars ++ (0 ∷ [])) >>= λ d. ok (d, at + length chars, s1)) e in
      let (d, _, e2) =
        bind-eq-ok (store dest at (chars ++ (0 ∷ []))) (λ d. ok (d, at + length chars, s1)) e1 in
      cc

  -- The text goes to the socket and the buffer alone.
  pub add_text-jobs :
      (line : Bytes) (type : ℕ) (b b' : Bytes × ℕ × Server P)
      → add_text sys fuel fd line type b ≡ ok b'
      → b'.2.jobs ≡ b.2.jobs
  unfolding add_text sh_try_to_send_data
  add_text-jobs line type b b' = elim (Bool-cases (leb 1024 (b.1 + length line + 1))) [
    | inl full ↦ rw full λ e.
        let (s1, sent, e1) =
          bind-eq-ok (send_to sys fuel fd b.0 type b.2) (put_text b.0 (snprintf line) 0) e in
        ap (λ (s : Server P). s.jobs) (put_text-server b.0 (snprintf line) 0 s1 b' e1)
        ∙ send_to-jobs b.0 type b.2 s1 sent
    | inr room ↦
        rw room
          λ e. ap (λ (s : Server P). s.jobs) (put_text-server b.0 (snprintf line) b.1 b.2 b' e)
  ]

  pub add_all-append :
      (type : ℕ) (ps qs : List Bytes) (b : Bytes × ℕ × Server P)
      → add_all sys fuel fd type (ps ++ qs) b
        ≡ (add_all sys fuel fd type ps b >>= add_all sys fuel fd type qs)
  add_all-append type [] qs b = refl
  add_all-append type (p ∷ ps) qs b =
      bind-cong (add_text sys fuel fd p type b) (add_all sys fuel fd type (ps ++ qs))
        (λ b'. add_all sys fuel fd type ps b' >>= add_all sys fuel fd type qs)
        (λ b' _. add_all-append type ps qs b')
      ∙ sym (
          bind_assoc (add_text sys fuel fd p type b) (add_all sys fuel fd type ps)
            (add_all sys fuel fd type qs))

  pub add_all-jobs :
      (type : ℕ) (ps : List Bytes) (b b' : Bytes × ℕ × Server P)
      → add_all sys fuel fd type ps b ≡ ok b'
      → b'.2.jobs ≡ b.2.jobs
  add_all-jobs type [] b b' e = cc
  add_all-jobs type (p ∷ ps) b b' e =
      let (b1, e1, e2) =
        bind-eq-ok (add_text sys fuel fd p type b) (add_all sys fuel fd type ps) e in
      add_all-jobs type ps b1 b' e2 ∙ add_text-jobs p type b b1 e1
