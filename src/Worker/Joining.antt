-- ===== src/Worker/Joining.antt =====
-- The groups that a worker of client/src/client.c asks for are those that the server reads.
use pyramid.Prelude.{
  ℕ, suc, ◌+◌, ◌-◌, ◌*◌, ◌%◌, ◌<◌, ◌≡◌, refl, sym, ap, ◌∙◌, Bool, false, Option, none, some, List,
  [], ◌∷◌, ◌++◌, arith, length, length-append, append_assoc, map, if◌then◌else◌, ℤ, pos,
}
use pyramid.Wire.{Run, ok, exit, ◌>>=◌, Bytes, word32}
use pyramid.Wire.Laws.{store-append}
use pyramid.Tlv.{encode, decode}
use pyramid.Tlv.Attribute.{join_group}
use pyramid.Tlv.Frame.{frame, tlv_bytes, encoded}
use pyramid.Tlv.Decode.{
  words, group_bytes, encode-join_group-append, decode-join_group, length-group_bytes,
}
use pyramid.Sending.{Socket, Outcome, returned, exited, send_joining_groups, empty_buffer, zeros}
use pyramid.Sending.Laws.{after_frame, transmit-all, empty_buffer-HasRoom}
use pyramid.Worker.Start.{
  to_word, client_input_sanity_check, put_arguments, is_cli, join, client_main,
}

module _ (inet_aton : Bytes → Option ℕ) (number : Bytes → ℤ) where
  put_arguments-append :
      (args : List Bytes) (done old back : List ℕ)
      → length old ≡ length args
      → put_arguments inet_aton number args (length done) (done ++ (old ++ back))
        ≡ ok (done ++ (map (λ a. to_word (number a)) args ++ back))
  unfolding put_arguments
  put_arguments-append [] done [] back e = refl
  put_arguments-append [] done (x ∷ old) back e = absurd (omega arith)
  put_arguments-append (a ∷ args) done [] back e = absurd (omega arith)
  put_arguments-append (a ∷ args) done (x ∷ old) back e =
      let word = to_word (number a) in
      let values = map (λ b. to_word (number b)) args in
      let next : length (done ++ (word ∷ [])) ≡ length done + 1 = length-append done (word ∷ []) in
      rw
        (
          store-append done (x ∷ []) (word ∷ []) (old ++ back) refl,
          ← append_assoc done (word ∷ []) (old ++ back),
          ← append_assoc done (word ∷ []) (values ++ back),
          ← next,
        )
        (put_arguments-append args (done ++ (word ∷ [])) old back (omega arith))

  -- What the worker has sent once it has joined the groups `gs`.
  send_joining_groups-frame :
      (send : ℕ → ℕ → Option ℕ) (gs : List ℕ) (more : Bytes) (k : Socket)
      → ((c n : ℕ) → send c n ≡ some n)
      → 0 < length gs
      → length gs < 255
      → send_joining_groups send (words gs ++ more) (pos (length gs)) k
        ≡ ok (returned (after_frame send join_group (group_bytes gs) k))
  unfolding send_joining_groups
  send_joining_groups-frame send gs more k takes low high =
      let sent : Bytes = frame (tlv_bytes join_group (group_bytes gs)) in
      let back : Bytes = zeros (1020 - (4 + 4 * length gs)) in
      let wrote : encode join_group (words gs ++ more) (pos (length gs)) empty_buffer
          ≡ encoded (length sent) (sent ++ back) =
        encode-join_group-append gs more (empty_buffer-HasRoom (4 + 4 * length gs) (omega arith))
          low high
        ∙ ap (λ (m : ℕ). encoded m (sent ++ back)) (omega (arith, length-group_bytes gs)) in
      let whole =
        transmit-all send join_group (words gs ++ more) (pos (length gs)) sent back k wrote
          (takes k.calls (length sent)) in
      ap
        (λ (m : Run (Option ℕ × Socket)).
          m >>= λ r. ok (elim r.0 [ none ↦ exited r.1 | some n ↦ returned r.1 ]))
        whole

  words-append : (gs hs : List ℕ) → words (gs ++ hs) ≡ words gs ++ words hs
  words-append [] hs = refl
  words-append (g ∷ gs) hs = ap (λ (l : Bytes). word32 g ++ l) (words-append gs hs)

  abbrev pub asked_groups : List Bytes → List ℕ
  asked_groups = map (λ a. to_word (number a))

  length-asked_groups : (args : List Bytes) → length (asked_groups args) ≡ length args
  length-asked_groups [] = refl
  length-asked_groups (a ∷ args) = ap suc (length-asked_groups args)

  join-frame :
      (send : ℕ → ℕ → Option ℕ) (arg : Bytes) (args : List Bytes) (old back : List ℕ) (k : Socket)
      → ((c n : ℕ) → send c n ≡ some n)
      → is_cli inet_aton number (arg ∷ args) ≡ false
      → length (arg ∷ args) < 255
      → length old ≡ length (arg ∷ args)
      → join inet_aton number send (arg ∷ args) (old ++ back) k
        ≡ ok (
            some
              (returned (after_frame send join_group (group_bytes (asked_groups (arg ∷ args))) k)))
  unfolding join
  join-frame send arg args old back k takes no_cli short e =
      let all : List Bytes = arg ∷ args in
      let gs = asked_groups all in
      let size : length gs ≡ length all = length-asked_groups all in
      let sent =
        send_joining_groups-frame send gs (words back) k takes (omega arith) (omega arith) in
      let there : send_joining_groups send (words (gs ++ back)) (pos (length all)) k
          ≡ ok (returned (after_frame send join_group (group_bytes gs) k)) =
        rw (words-append gs back, ← size) sent in
      ap
        (λ (b : Bool). if b then ok none else (do
          filled ← put_arguments inet_aton number all 0 (old ++ back)
          o ← send_joining_groups send (words filled) (pos (length all)) k
          ok (some o)))
        no_cli
      ∙ ap
          (λ (m : Run (List ℕ)). m >>= λ filled.
            send_joining_groups send (words filled) (pos (length all)) k >>= λ o. ok (some o))
          (put_arguments-append all [] old back e)
      ∙ ap (λ (m : Run Outcome). m >>= λ o. ok (some o)) there

  -- A worker with an accepted address and port and 1 to 254 groups joins: one frame with one JOIN_GROUP
  -- message goes out, and `decode` reads from it the numbers of the command line, modulo 65536, in
  -- their order, into an array with a cell for each. `send` takes the frame whole.
  pub client_main-joins :
      (send : ℕ → ℕ → Option ℕ) (address port arg : Bytes) (args : List Bytes) (server : ℕ × ℕ)
      (old back : List ℕ) (k : Socket) (cells behind : List ℕ) (rest : Bytes)
      → ((c n : ℕ) → send c n ≡ some n)
      → client_input_sanity_check inet_aton number (address ∷ port ∷ arg ∷ args) ≡ some server
      → is_cli inet_aton number (arg ∷ args) ≡ false
      → length (arg ∷ args) < 255
      → length old ≡ length (arg ∷ args)
      → length cells ≡ length (arg ∷ args)
      → (client_main inet_aton number send (address ∷ port ∷ arg ∷ args) (old ++ back) k
          ≡ ok (
              some (
                returned
                  (after_frame send join_group (group_bytes (asked_groups (arg ∷ args))) k))))
        × (decode
              (tlv_bytes join_group (group_bytes (asked_groups (arg ∷ args))) ++ rest)
              (cells ++ behind)
            ≡ ok (
              record { type = join_group; length = 4 * length (arg ∷ args); value = none },
              map (λ g. g % 65536) (asked_groups (arg ∷ args)) ++ behind,
            ))
  unfolding client_main
  client_main-joins send address port arg args server old back k cells behind rest takes accepted
        no_cli short e ec =
      let gs = asked_groups (arg ∷ args) in
      let size : length gs ≡ length (arg ∷ args) = length-asked_groups (arg ∷ args) in
      (
        ap
              (λ (r : Option (ℕ × ℕ)). elim r [
                | none ↦ exit
                | some a ↦ join inet_aton number send (arg ∷ args) (old ++ back) k
              ])
              accepted
            ∙ join-frame send arg args old back k takes no_cli short e,
        decode-join_group gs cells behind rest (ec ∙ sym size) (omega arith)
            ∙ ap
                (λ (n : ℕ). ok (
                  record { type = join_group; length = 4 * n; value = none },
                  map (λ g. g % 65536) gs ++ behind,
                ))
                size,
      )
