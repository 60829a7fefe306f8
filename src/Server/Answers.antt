-- ===== src/Server/Answers.antt =====
-- What `sh_parse_cmd` of server/src/server_helper.c sends: replies of one text, and GOOD_BYE.
use pyramid.Prelude.{
  ℕ, suc, ◌<◌, ◌≤◌, ◌≡◌, refl, ap, ◌∙◌, true, false, Option, some, List, [], ◌∷◌, ◌++◌, arith,
  length, All, update, ℤ, pos, leb_ℤ, ◌-ℤ◌,
}
use pyramid.Wire.{ok, Bytes}
use pyramid.Wire.Laws.{NulFree, bind-ok, fetch-append}
use pyramid.Tlv.{encode, goodbye}
use pyramid.Tlv.Attribute.{good_bye}
use pyramid.Tlv.Frame.{IsText, tlv_bytes, frame, encoded, encode-goodbye-append}
use pyramid.Sending.{
  Socket, returned, zeros, empty_buffer, transmit, send_loop, sh_send_encoded_data,
}
use pyramid.Sending.Laws.{after_frame, length_taken, empty_buffer-HasRoom}
use pyramid.Server.{System, Server, send_to}
use pyramid.Server.Display.{add_text, send_rest}
use pyramid.Server.Replies.{reply}
use pyramid.Server.Chunks.{chunks, chunks-one, after_chunks, put_socket, put_twice, IsSmall}
use pyramid.Server.Buffer.{add_all-stack}

abbrev pub after_goodbye : (ℕ → ℕ → Option ℕ) → Socket → Socket
after_goodbye send k = after_frame send good_bye goodbye k

module _ (send : ℕ → ℕ → Option ℕ) where
  transmit-goodbye :
      (chars : Bytes) (len : ℤ) (k : Socket)
      → send k.calls 15 ≡ some 15
      → transmit send good_bye chars len k ≡ ok (some 15, after_goodbye send k)
  unfolding transmit
  transmit-goodbye chars len k all =
      let sent : Bytes = frame (tlv_bytes good_bye goodbye) in
      let back : Bytes = zeros 1009 in
      let wrote : encode good_bye chars len empty_buffer ≡ encoded 15 (sent ++ back) =
        encode-goodbye-append chars len (empty_buffer-HasRoom 11 (omega arith)) in
      rw (wrote, fetch-append sent back, all) refl

  -- A string of 1 to 15 characters is answered by one GOOD_BYE.
  send-goodbye :
      (f : ℕ) (d more : Bytes) (k : Socket)
      → NulFree d
      → 0 < length d
      → length d ≤ 15
      → send k.calls 15 ≡ some 15
      → sh_send_encoded_data send (suc (suc f)) (d ++ (0 ∷ more)) good_bye k
        ≡ ok (returned (after_goodbye send k))
  unfolding sh_send_encoded_data send_loop
  send-goodbye f d more k free low high all =
      let n : ℕ = length d in
      let begins : leb_ℤ (pos n) (pos 0) ≡ false = ground arith in
      let ends : leb_ℤ (pos n -ℤ pos 15) (pos 0) ≡ true = unfold ◌-ℤ◌ in ground arith in
      length_taken send (suc (suc f)) good_bye d more k free (omega arith)
      ∙ rw (begins, transmit-goodbye (d ++ (0 ∷ more)) (pos n) k all, ends) refl

module _ {P : Type 0} (sys : System P) (f fd : ℕ)
    (takes : (c n : ℕ) → sys.send fd c n ≡ some n) where
  pub send_to-goodbye :
      (s : Server P) (k : Socket) (d : Bytes)
      → NulFree d
      → 0 < length d
      → length d ≤ 15
      → send_to sys (suc (suc f)) fd (d ++ (0 ∷ [])) good_bye (put_socket fd s k)
        ≡ ok (put_socket fd s (after_goodbye (sys.send fd) k))
  unfolding send_to
  send_to-goodbye s k d free low high =
      let here : update s.sockets fd k fd ≡ k = ground arith in
      let sent = send-goodbye (sys.send fd) f d [] k free low high (takes k.calls 15) in
      rw (here, sent) (ap ok (put_twice fd s k (after_goodbye (sys.send fd) k)))

  -- A text of 1 to 1016 characters goes out as one frame, whatever the local array held.
  pub reply-frame :
      (line : Bytes) (type : ℕ) (s : Server P)
      → IsText type
      → NulFree line
      → 0 < length line
      → length line ≤ 1016
      → 1024 ≤ length sys.stack
      → reply sys (suc (suc f)) fd line type s
        ≡ ok (put_socket fd s (after_frame (sys.send fd) type line (s.sockets fd)))
  unfolding reply
  reply-frame line type s t free low high room =
      let one = chunks-one line low (omega arith) in
      let small : All IsSmall (chunks [] (line ∷ [])) = rw one (high, tt) in
      bind-ok (add_text sys (suc (suc f)) fd line type (sys.stack, 0, s))
        (send_rest sys (suc (suc f)) fd type)
      ∙ add_all-stack sys f fd type t takes (line ∷ []) s room ((free, low, omega arith), tt) small
      ∙ ap
          (λ (cs : List Bytes).
            ok (put_socket fd s (after_chunks (sys.send fd) type cs (s.sockets fd))))
          one
