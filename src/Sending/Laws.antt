-- ===== src/Sending/Laws.antt =====
-- What the sending loops put on a socket, and when they end.
use pyramid.Prelude.{
  ℕ, zero, suc, ◌+◌, ◌-◌, ◌<◌, ◌≤◌, ◌≡◌, refl, ap, ◌∙◌, true, false, Option, some, [], ◌∷◌, ◌++◌,
  arith, length, append-nil, as_int, as_int-small, ltb_ℤ, inr, ℤ, pos, ◌-ℤ◌, leb_ℤ, take-length,
  inl,
}
use pyramid.Wire.{Run, ◌>>=◌, ok, out_of_fuel, Bytes, fetch}
use pyramid.Wire.Laws.{NulFree, fetch-append}
use pyramid.Tlv.{encode}
use pyramid.Tlv.Frame.{IsText, HasRoom, tlv_bytes, frame, encoded, encode-append, encode_refuses}
use pyramid.Sending.{
  zeros, empty_buffer, Socket, returned, strlen, transmit, send_loop, sh_send_encoded_data,
  send_data,
}

pub zeros-add : (a b : ℕ) → zeros (a + b) ≡ zeros a ++ zeros b
unfolding zeros
zeros-add zero b = let e : 0 + b ≡ b = omega arith in ap zeros e
zeros-add (suc a) b =
    let e : suc a + b ≡ suc (a + b) = omega arith in
    ap zeros e ∙ ap (λ (l : Bytes). 0 ∷ l) (zeros-add a b)

pub length-zeros : (n : ℕ) → length (zeros n) ≡ n
unfolding zeros
length-zeros zero = refl
length-zeros (suc n) = ap suc (length-zeros n)

zeros_split : (n : ℕ) → n ≤ 1020 → zeros 1024 ≡ zeros 4 ++ (zeros n ++ zeros (1020 - n))
zeros_split n h =
    let e : 1020 ≡ n + (1020 - n) = omega arith in
    zeros-add 4 1020 ∙ ap (λ l. zeros 4 ++ l) (ap zeros e ∙ zeros-add n (1020 - n))

pub empty_buffer-HasRoom : (n : ℕ) → n ≤ 1020 → HasRoom empty_buffer [] n (zeros (1020 - n))
unfolding empty_buffer
empty_buffer-HasRoom n h = record {
  header = zeros 4;
  gap = zeros n;
  header_length = length-zeros 4;
  gap_length = length-zeros n;
  contents = zeros_split n h;
  starts = refl;
}

pub strlen-append : (d more : Bytes) → NulFree d → strlen (d ++ (0 ∷ more)) ≡ ok (length d)
unfolding strlen
strlen-append [] more h = refl
strlen-append (zero ∷ d) more (h, _) = absurd (h refl)
strlen-append (suc b ∷ d) more (_, h) = rw (strlen-append d more h)

module _ (send : ℕ → ℕ → Option ℕ) where
  -- What a socket was given once `send` has taken a whole frame.
  abbrev pub after_frame : ℕ → Bytes → Socket → Socket
  after_frame type d s = record { calls = s.calls + 1; out = s.out ++ frame (tlv_bytes type d) }

  -- Whatever `encode` writes, when `send` takes it whole.
  pub transmit-all :
      (type : ℕ) (chars : Bytes) (len : ℤ) (sent back : Bytes) (s : Socket)
      → encode type chars len empty_buffer ≡ encoded (length sent) (sent ++ back)
      → send s.calls (length sent) ≡ some (length sent)
      → transmit send type chars len s
        ≡ ok (some (length sent), record { calls = s.calls + 1; out = s.out ++ sent })
  unfolding transmit
  transmit-all type chars len sent back s wrote all =
      rw (wrote, fetch-append sent back, all, take-length sent) refl

  transmit-frame :
      (type : ℕ) (d more : Bytes) (s : Socket)
      → IsText type
      → 0 < length d
      → length d ≤ 1016
      → send s.calls (8 + length d) ≡ some (8 + length d)
      → transmit send type (d ++ more) (pos (length d)) s
        ≡ ok (some (8 + length d), after_frame type d s)
  unfolding transmit
  transmit-frame type d more s t low high all =
      let n : ℕ = length d in
      let sent : Bytes = frame (tlv_bytes type d) in
      let back : Bytes = zeros (1020 - (4 + n)) in
      let wrote : encode type (d ++ more) (pos n) empty_buffer ≡ encoded (8 + n) (sent ++ back) =
        encode-append d more (empty_buffer-HasRoom (4 + n) (omega arith)) type t low (omega arith)
        ∙ ap (λ (k : ℕ). encoded k (sent ++ back)) (omega arith) in
      let size : length sent ≡ 8 + n = omega arith in
      rw (wrote, ← size, fetch-append sent back, size, all, ← size, take-length sent)

  pub send_loop-frame :
      (f type : ℕ) (d more : Bytes) (s : Socket)
      → IsText type
      → 0 < length d
      → length d ≤ 1016
      → send s.calls (8 + length d) ≡ some (8 + length d)
      → send_loop send (suc (suc f)) type (d ++ more) (pos (length d)) s
        ≡ ok (returned (after_frame type d s))
  unfolding send_loop
  send_loop-frame f type d more s t low high all =
      let n : ℕ = length d in
      let begins : leb_ℤ (pos n) (pos 0) ≡ false = ground arith in
      let ends : leb_ℤ (pos n -ℤ pos (8 + n)) (pos 0) ≡ true = unfold ◌-ℤ◌ in ground arith in
      rw (begins, transmit-frame type d more s t low high all, ends)

  -- `int len = strlen(data);` in front of the loop.
  pub length_taken :
      (f type : ℕ) (d more : Bytes) (s : Socket)
      → NulFree d
      → length d < 2147483648
      → (strlen (d ++ (0 ∷ more)) >>= λ n.
          send_loop send f type (d ++ (0 ∷ more)) (as_int (pos n)) s)
        ≡ send_loop send f type (d ++ (0 ∷ more)) (pos (length d)) s
  length_taken f type d more s free short =
      ap (λ (m : Run ℕ). m >>= λ n. send_loop send f type (d ++ (0 ∷ more)) (as_int (pos n)) s)
        (strlen-append d more free)
      ∙ ap (λ (l : ℤ). send_loop send f type (d ++ (0 ∷ more)) l s) (as_int-small (length d) short)

  -- A string of 1 to 1016 characters goes out as one frame with one message, by one call of `send`
  -- that takes it whole, and both functions return.
  pub send_data-frame :
      (f type : ℕ) (d more : Bytes) (s : Socket)
      → IsText type
      → NulFree d
      → 0 < length d
      → length d ≤ 1016
      → send s.calls (8 + length d) ≡ some (8 + length d)
      → (sh_send_encoded_data send (suc (suc f)) (d ++ (0 ∷ more)) type s
          ≡ ok (returned (after_frame type d s)))
        × (send_data send (suc (suc f)) (d ++ (0 ∷ more)) type s
            ≡ ok (returned (after_frame type d s)))
  unfolding sh_send_encoded_data send_data
  send_data-frame f type d more s t free low high all =
      let sent = send_loop-frame f type d (0 ∷ more) s t low high all in
      let same = length_taken (suc (suc f)) type d more s free (omega arith) in
      (same ∙ sent, same ∙ sent)

  refuses_long :
      (type n : ℕ) (chars : Bytes) (s : Socket)
      → IsText type
      → 1024 ≤ n
      → ((k : ℕ) → send k 0 ≡ some 0)
      → transmit send type chars (pos n) s
        ≡ ok (some 0, record { calls = s.calls + 1; out = s.out })
  unfolding transmit fetch
  refuses_long type n chars s t long none_taken =
      let beyond : ltb_ℤ (pos 1023) (pos n) ≡ true = ground arith in
      rw (
        encode_refuses type chars (pos n) empty_buffer (inl (t, inr beyond)),
        none_taken s.calls,
        append-nil s.out,
      )

  send_loop_stuck :
      (f type n : ℕ) (chars : Bytes) (s : Socket)
      → IsText type
      → 1024 ≤ n
      → ((k : ℕ) → send k 0 ≡ some 0)
      → send_loop send f type chars (pos n) s ≡ out_of_fuel
  unfolding send_loop ◌-ℤ◌
  send_loop_stuck zero type n chars s t long none_taken = refl
  send_loop_stuck (suc f) type n chars s t long none_taken =
      let begins : leb_ℤ (pos n) (pos 0) ≡ false = ground arith in
      let same : pos n -ℤ pos 0 ≡ pos n = ground arith in
      rw (begins, refuses_long type n chars s t long none_taken, same)
        (send_loop_stuck f type n chars (record s { calls = s.calls + 1 }) t long none_taken)

  -- A string of 1024 characters or more, and less than 2^31, is never sent and never given up: `encode` refuses it, an
  -- empty `send` succeeds, and the loop goes round for as long as it is let.
  pub send_data_stuck :
      (f type : ℕ) (d more : Bytes) (s : Socket)
      → IsText type
      → NulFree d
      → 1024 ≤ length d
      → length d < 2147483648
      → ((k : ℕ) → send k 0 ≡ some 0)
      → (sh_send_encoded_data send f (d ++ (0 ∷ more)) type s ≡ out_of_fuel)
        × (send_data send f (d ++ (0 ∷ more)) type s ≡ out_of_fuel)
  unfolding sh_send_encoded_data send_data
  send_data_stuck f type d more s t free long short none_taken =
      let stuck = send_loop_stuck f type (length d) (d ++ (0 ∷ more)) s t long none_taken in
      let same = length_taken f type d more s free short in (same ∙ stuck, same ∙ stuck)
