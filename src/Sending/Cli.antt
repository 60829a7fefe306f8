-- ===== src/Sending/Cli.antt =====
-- `request_cli_data` of client/src/cli_commands.c copies its argument into 80 bytes first.
use pyramid.Prelude.{
  ℕ, suc, ◌+◌, ◌-◌, ◌<◌, ◌≤◌, ◌≡◌, refl, sym, ap, ◌∙◌, Option, some, [], ◌∷◌, ◌++◌, arith, length,
  length-append, append_assoc, inl, inr,
}
use pyramid.Wire.{◌>>=◌, ok, fault, Bytes, fetch, store}
use pyramid.Wire.Laws.{NulFree, fetch-append, store-append, store-fault}
use pyramid.Tlv.Attribute.{cli_data}
use pyramid.Sending.{zeros, Socket, returned, request_cli_data}
use pyramid.Sending.Laws.{
  zeros-add, length-zeros, strlen-append, after_frame, length_taken, send_loop-frame,
}

fetch_string : (d more : Bytes) → fetch (suc (length d)) (d ++ (0 ∷ more)) ≡ ok (d ++ (0 ∷ []))
fetch_string d more =
    let size : suc (length d) ≡ length (d ++ 0 ∷ []) = omega (arith, length-append d (0 ∷ [])) in
    rw (size, ← append_assoc d (0 ∷ []) more) (fetch-append (d ++ 0 ∷ []) more)

copy_string :
    (d : Bytes) (k : ℕ)
    → store (zeros (length d + 1 + k)) 0 (d ++ (0 ∷ [])) ≡ ok (d ++ (0 ∷ zeros k))
copy_string d k =
    let size : length (d ++ (0 ∷ [])) ≡ length d + 1 = length-append d (0 ∷ []) in
    rw (zeros-add (length d + 1) k) (
      store-append [] (zeros (length d + 1)) (d ++ (0 ∷ [])) (zeros k)
        (size ∙ sym (length-zeros (length d + 1)))
      ∙ ap ok (append_assoc d (0 ∷ []) (zeros k)))

module _ (send : ℕ → ℕ → Option ℕ) where
  -- A command of 1 to 79 characters goes out as one frame with one CLI_DATA message.
  pub request_cli_data-frame :
      (f : ℕ) (d more : Bytes) (s : Socket)
      → NulFree d
      → 0 < length d
      → length d ≤ 79
      → send s.calls (8 + length d) ≡ some (8 + length d)
      → request_cli_data send (suc (suc f)) (d ++ (0 ∷ more)) s
        ≡ ok (returned (after_frame send cli_data d s))
  unfolding request_cli_data
  request_cli_data-frame f d more s free low high all =
      let k : ℕ = 79 - length d in
      let room : 80 ≡ length d + 1 + k = omega arith in
      let copied : store (zeros 80) 0 (d ++ (0 ∷ [])) ≡ ok (d ++ (0 ∷ zeros k)) =
        ap (λ (m : ℕ). store (zeros m) 0 (d ++ (0 ∷ []))) room ∙ copy_string d k in
      rw (strlen-append d more free, fetch_string d more, copied, ◌>>=◌)
        (length_taken send (suc (suc f)) cli_data d (zeros k) s free (omega arith)
          ∙ send_loop-frame send f cli_data d (0 ∷ zeros k) s (inr (inl refl)) low (omega arith)
              all)

  -- A longer command is written past the end of the 80 bytes.
  pub request_cli_data_overflows :
      (f : ℕ) (d more : Bytes) (s : Socket)
      → NulFree d
      → 80 ≤ length d
      → request_cli_data send f (d ++ (0 ∷ more)) s ≡ fault
  unfolding request_cli_data
  request_cli_data_overflows f d more s free long =
      let copied : store (zeros 80) 0 (d ++ (0 ∷ [])) ≡ fault =
        store-fault (zeros 80) 0 (d ++ (0 ∷ []))
          (omega (arith, length-append d (0 ∷ []), length-zeros 80))
          (λ nil. absurd (omega (arith, ap length nil, length-append d (0 ∷ [])))) in
      rw (strlen-append d more free, fetch_string d more, copied)
