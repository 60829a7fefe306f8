-- ===== src/Server/Buffer.antt =====
-- The buffer of `sh_try_to_send_data` (server/src/server_helper.c) goes through the chunks that
-- Server/Chunks.antt describes.
use pyramid.Prelude.{
  ◌≤◌, ℕ, suc, ◌+◌, ◌<◌, ◌≡◌, ◌≢◌, inl, inr, refl, ap, ◌∙◌, true, false, Option, some, List, [],
  ◌∷◌, ◌++◌, arith, length, length-append, All, All-append, leb, ◌==◌, take-of_le, update,
  Bool-cases, fun_ext, sym,
}
use pyramid.Wire.{ok, ◌>>=◌, Bytes, store}
use pyramid.Wire.Laws.{NulFree}
use pyramid.Tlv.Frame.{IsText}
use pyramid.Sending.{Socket}
use pyramid.Sending.Laws.{after_frame, send_data-frame}
use pyramid.Central.{text}
use pyramid.Server.{System, Server, snprintf, send_to}
use pyramid.Server.Display.{sh_try_to_send_data, add_text, send_rest}
use pyramid.Server.Chunks.{
  is_full, chunks, after_chunks, put_socket, Holds, text-append, store-Holds, put_twice, add_all,
  IsEntry, IsSmall,
}

module _ {P : Type 0} (sys : System P) (f fd type : ℕ) (t : IsText type)
    (takes : (c n : ℕ) → sys.send fd c n ≡ some n) where
  pub send_to-frame :
      (s : Server P) (k : Socket) (d more : Bytes)
      → NulFree d
      → 0 < length d
      → IsSmall d
      → send_to sys (suc (suc f)) fd (d ++ (0 ∷ more)) type (put_socket fd s k)
        ≡ ok (put_socket fd s (after_frame (sys.send fd) type d k))
  unfolding send_to
  send_to-frame s k d more free low high =
      let here : update s.sockets fd k fd ≡ k = ground arith in
      let sent =
        (send_data-frame (sys.send fd) f type d more k t free low high
          (takes k.calls (8 + length d))).0 in
      rw (here, sent) (ap ok (put_twice fd s k (after_frame (sys.send fd) type d k)))

  -- The buffer `b` holds `cur`, and the server's socket is `k`.
  pub record IsAt (s : Server P) (b : Bytes × ℕ × Server P) (cur : Bytes) (k : Socket)
      : Type 0 where
    pub holds : Holds b.0 cur
    pub counted : b.1 ≡ length cur
    pub server : b.2 ≡ put_socket fd s k
    pub free : NulFree cur

  abbrev pub send : ℕ → ℕ → Option ℕ
  send = sys.send fd

  line_text : (p : Bytes) → IsEntry p → text (snprintf p) ≡ ok p
  line_text p (free, low, high) = rw (take-of_le 1023 p (omega arith)) (text-append p [] free)

  keeps :
      (s : Server P) (b : Bytes × ℕ × Server P) (cur p : Bytes) (k : Socket)
      → IsAt s b cur k
      → IsEntry p
      → is_full cur p ≡ false
      → (b' : Bytes × ℕ × Server P) × (add_text sys (suc (suc f)) fd p type b ≡ ok b')
        × IsAt s b' (cur ++ p) k
  unfolding add_text sh_try_to_send_data
  keeps s b cur p k at (free, low, high) fits =
      let room : leb 1024 (b.1 + length p + 1) ≡ false = rw at.counted fits in
      let (dest, stored, h) = store-Holds p at.holds low (ground arith) in
      let there : store b.0 b.1 (p ++ (0 ∷ [])) ≡ ok dest = rw at.counted stored in
      (
        (dest, b.1 + length p, b.2),
        rw (room, line_text p (free, low, high), there) refl,
        record {
          holds = h;
          counted = omega (arith, at.counted, length-append cur p);
          server = at.server;
          free = All-append (λ b. b ≢ 0) cur p at.free free;
        },
      )

  -- The array that holds a text that is not empty is this text, a NUL and more.
  with_nul :
      {dest cur : Bytes}
      → Holds dest cur
      → 0 < length cur
      → (junk : Bytes) × (dest ≡ cur ++ (0 ∷ junk))
  with_nul {cur} h low = elim h.ended [
    | inl nil ↦ absurd (omega (arith, ap length nil))
    | inr (junk, e) ↦ (junk, h.contents ∙ ap (λ (l : Bytes). cur ++ l) e)
  ]

  send_buffer :
      (s : Server P) (b : Bytes × ℕ × Server P) (cur : Bytes) (k : Socket)
      → IsAt s b cur k
      → 0 < length cur
      → IsSmall cur
      → send_to sys (suc (suc f)) fd b.0 type b.2
        ≡ ok (put_socket fd s (after_frame send type cur k))
  send_buffer s b cur k at low small =
      let (junk, e) = with_nul at.holds low in
      rw (at.server, e) (send_to-frame s k cur junk at.free low small)

  sends :
      (s : Server P) (b : Bytes × ℕ × Server P) (cur p : Bytes) (k : Socket)
      → IsAt s b cur k
      → IsEntry p
      → is_full cur p ≡ true
      → IsSmall cur
      → (b' : Bytes × ℕ × Server P) × (add_text sys (suc (suc f)) fd p type b ≡ ok b')
        × IsAt s b' p (after_frame send type cur k)
  unfolding add_text sh_try_to_send_data
  sends s b cur p k at (free, low, high) full small =
      let some_text : 0 < length cur = ground arith in
      let no_room : leb 1024 (b.1 + length p + 1) ≡ true = rw at.counted full in
      let empty : Holds b.0 [] = record {
        tail = b.0;
        room = at.holds.room;
        contents = refl;
        ended = inl refl;
      } in
      let (dest, stored, h) = store-Holds p empty low (omega arith) in
      let sent = send_buffer s b cur k at some_text small in
      (
        (dest, 0 + length p, put_socket fd s (after_frame send type cur k)),
        rw (no_room, sent, line_text p (free, low, high), stored) refl,
        record { holds = h; counted = omega arith; server = refl; free = free },
      )

  -- From any content of the buffer on: the texts go out as the chunks that they make, one frame for
  -- each, whatever was in the array behind the content.
  pub add_all-chunks :
      (ps : List Bytes) (s : Server P) (b : Bytes × ℕ × Server P) (cur : Bytes) (k : Socket)
      → IsAt s b cur k
      → All IsEntry ps
      → All IsSmall (chunks cur ps)
      → (add_all sys (suc (suc f)) fd type ps b >>= λ b'. send_rest sys (suc (suc f)) fd type b')
        ≡ ok (put_socket fd s (after_chunks send type (chunks cur ps) k))
  unfolding send_rest chunks
  add_all-chunks [] s b [] k at h small =
      let none_left : (b.1 == 0) ≡ true = ground (arith, at.counted) in
      rw none_left (ap ok at.server)
  add_all-chunks [] s b (c ∷ cur) k at h small =
      let some_left : (b.1 == 0) ≡ false = ground (arith, at.counted) in
      let counted : (suc (length cur) == 0) ≡ false = ground arith in
      let fits : IsSmall (c ∷ cur) = (rw counted at small).0 in
      rw (some_left, counted) (send_buffer s b (c ∷ cur) k at (omega arith) fits)
  add_all-chunks (p ∷ ps) s b cur k at (h, hs) small = elim (Bool-cases (is_full cur p)) [
    | inl e ↦
        let fits : All IsSmall (cur ∷ chunks p ps) = rw e at small in
        let (b', step, at') = sends s b cur p k at h e fits.0 in
        rw (e, step) (add_all-chunks ps s b' p (after_frame send type cur k) at' hs fits.1)
    | inr e ↦
        let fits : All IsSmall (chunks (cur ++ p) ps) = rw e at small in
        let (b', step, at') = keeps s b cur p k at h e in
        rw (e, step) (add_all-chunks ps s b' (cur ++ p) k at' hs fits)
  ]

  -- From an empty buffer on, whatever the local array holds.
  pub add_all-stack :
      (ps : List Bytes) (s : Server P)
      → 1024 ≤ length sys.stack
      → All IsEntry ps
      → All IsSmall (chunks [] ps)
      → (add_all sys (suc (suc f)) fd type ps (sys.stack, 0, s) >>= λ b'.
          send_rest sys (suc (suc f)) fd type b')
        ≡ ok (put_socket fd s (after_chunks send type (chunks [] ps) (s.sockets fd)))
  add_all-stack ps s room entries small =
      let same : update s.sockets fd (s.sockets fd) ≡ s.sockets = fun_ext (λ a. ground arith) in
      add_all-chunks ps s (sys.stack, 0, s) [] (s.sockets fd)
        (record {
          holds = record { tail = sys.stack; room = room; contents = refl; ended = inl refl };
          counted = refl;
          server = ap (λ (m : ℕ → Socket). record s { sockets = m }) (sym same);
          free = tt;
        })
        entries small
