-- ===== src/Messages/Zero.antt =====
-- A segment whose header says 0.
use pyramid.Prelude.{
  ℕ, zero, suc, ◌<◌, ◌≡◌, ◌≢◌, refl, Bool, false, ◌∷◌, arith, pos, replicate, ltb_ℤ, leb_ℤ, inl,
  inr, ◌⊎◌,
}
use pyramid.Wire.{Run, ok, fault, out_of_fuel, ◌>>=◌, Bytes, htonl, load32, advance}
use pyramid.Wire.Laws.{bind-eq-ok}
use pyramid.Tlv.{Tlv}
use pyramid.Messages.{Progress, sub_int, tlv_loop, segment, segment_loop, handle_message}

module _ {ℓ} {S : Type ℓ} (handle : Tlv → Progress S → Run (Progress S)) where
  segment_zero :
      (k : ℕ) (p : Bytes) (s : Progress S)
      → segment handle (suc k) (0 ∷ 0 ∷ 0 ∷ 0 ∷ p) s ≡ ok (pos 0, p, s)
  unfolding segment tlv_loop advance load32 htonl sub_int
  segment_zero k p s = refl

  segment-replicate :
      (k n : ℕ) (s : Progress S)
      → (segment handle k (replicate n 0) s ≡ fault)
        ⊎ (segment handle k (replicate n 0) s ≡ out_of_fuel)
        ⊎ ((m : ℕ) × (segment handle k (replicate n 0) s ≡ ok (pos 0, replicate m 0, s)))
  unfolding segment tlv_loop advance load32 htonl sub_int
  segment-replicate zero (suc (suc (suc (suc n)))) s = inr (inl refl)
  segment-replicate (suc k) (suc (suc (suc (suc n)))) s = inr (inr (n, refl))
  segment-replicate _ _ s = inl refl

  segment_loop_round :
      (k left : ℕ) (buf : Bytes) (s : Progress S)
      → 0 < left
      → segment_loop handle (suc k) (pos left) buf s ≡ (
          segment handle k buf s >>= λ x.
          sub_int (pos left) x.0 >>= λ l. segment_loop handle k l x.1 x.2)
  unfolding segment_loop
  segment_loop_round k left buf s h =
      let more : leb_ℤ (pos left) (pos 0) ≡ false = ground arith in rw more

  segment_loop-replicate :
      (f n left : ℕ) (s r : Progress S)
      → 0 < left
      → left < 2147483648
      → segment_loop handle f (pos left) (replicate n 0) s ≢ ok r
  segment_loop-replicate zero n left s r h b = unfold segment_loop in λ e. cc
  segment_loop-replicate (suc f) n left s r h b =
      rw (segment_loop_round f left (replicate n 0) s h) (elim (segment-replicate f n s) [
        | inl e ↦ rw e (λ x. cc)
        | inr (inl e) ↦ rw e (λ x. cc)
        | inr (inr (m, e)) ↦
            let same : sub_int (pos left) (pos 0) ≡ ok (pos left) =
              unfold sub_int in ground arith in
            rw (e, same) (segment_loop-replicate f m left s r h b)
      ])

  -- On one or more received bytes that are all 0, with zeros behind them, `handle_message` never
  -- returns, however long it runs: a segment of length 0 uses up nothing of `recvLen`.
  pub handle_message-replicate :
      (f n left : ℕ) (s : Progress S) (r : Bool × Progress S)
      → 0 < left
      → left < 2147483648
      → handle_message handle f (replicate n 0) (pos left) s ≢ ok r
  unfolding handle_message load32 htonl
  handle_message-replicate f (suc (suc (suc (suc n)))) left s r h b =
      let whole : ltb_ℤ (pos left) (pos 0) ≡ false = ground arith in
      rw whole λ e.
        let (s', ends, _) = bind-eq-ok (segment_loop handle f (pos left) _ _) _ e in
        segment_loop-replicate f (suc (suc (suc (suc n)))) left (record s { done = false }) s' h b
          ends
  handle_message-replicate f _ left s r h b = λ e. cc
