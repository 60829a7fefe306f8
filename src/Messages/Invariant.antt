-- ===== src/Messages/Invariant.antt =====
-- What every call of a handler keeps, the loops over the messages keep.
use pyramid.Prelude.{
  to_int, ℕ, zero, suc, ◌+◌, ◌≡◌, subst, inl, inr, Bool, true, false, Bool-cases, if◌then◌else◌,
  leb_ℤ, ltb_ℤ, ℤ, pos,
}
use pyramid.Wire.{Run, ok, out_of_fuel, ◌>>=◌, Bytes, load32, htonl, advance}
use pyramid.Wire.Laws.{bind-eq-ok}
use pyramid.Tlv.{Tlv, decode}
use pyramid.Messages.{Progress, sub_int, tlv_loop, segment, segment_loop, handle_message}

stuck {ℓ} : {A : Type ℓ} {a : A} → out_of_fuel ≡ ok a → ⊥
stuck e = cc

module _ {ℓ κ} {S : Type ℓ} (handle : Tlv → Progress S → Run (Progress S)) (Keeps : S → Type κ)
    (step : (tlv : Tlv) (s s' : Progress S)
      → handle tlv s ≡ ok s'
      → Keeps s.state
      → Keeps s'.state) where
  same_end :
      {x y : Bytes} {s t : Progress S}
      → ◌≡◌ {A = Run (Bytes × Progress S)} (ok (x, s)) (ok (y, t))
      → Keeps s.state
      → Keeps t.state
  same_end {s = s} {t} e h =
      let same : s ≡ t = cc in subst (λ (p : Progress S). Keeps p.state) same h

  tlv_loop-Keeps :
      (fuel : ℕ) (len : ℤ) (buf rest : Bytes) (s s' : Progress S)
      → tlv_loop handle fuel len buf s ≡ ok (rest, s')
      → Keeps s.state
      → Keeps s'.state
  unfolding tlv_loop
  tlv_loop-Keeps zero len buf rest s s' = λ e h. absurd (stuck e)
  tlv_loop-Keeps (suc fuel) len buf rest s s' = elim (Bool-cases (leb_ℤ len (pos 0))) [
    | inl over ↦ rw over λ e h. same_end e h
    | inr more ↦ rw more λ e h.
        let (d, _, e1) = bind-eq-ok (decode buf s.g_groups) _ e in
        let (len', _, e2) = bind-eq-ok (sub_int len (pos (d.0.length + 4))) _ e1 in
        let (buf', _, e3) = bind-eq-ok (advance (d.0.length + 4) buf) _ e2 in
        let s0 : Progress S = record s { g_groups = d.1 } in
        let (s1, handled, e4) = bind-eq-ok (handle d.0 s0) _ e3 in
        tlv_loop-Keeps fuel len' buf' rest s1 s' e4 (step d.0 s0 s1 handled h)
  ]

  segment-Keeps :
      (fuel : ℕ) (buf rest : Bytes) (size : ℤ) (s s' : Progress S)
      → segment handle fuel buf s ≡ ok (size, rest, s')
      → Keeps s.state
      → Keeps s'.state
  unfolding segment
  segment-Keeps fuel buf rest size s s' e h =
      let (w, _, e1) = bind-eq-ok (load32 buf) _ e in
      let (body, _, e2) = bind-eq-ok (advance 4 buf) _ e1 in
      let (len, _, e3) = bind-eq-ok (sub_int (to_int (htonl w)) (pos 4)) _ e2 in
      let (r, ran, e4) = bind-eq-ok (tlv_loop handle fuel len body s) _ e3 in
      let same : r.1 ≡ s' = cc in
      subst (λ (p : Progress S). Keeps p.state) same (tlv_loop-Keeps fuel len body r.0 s r.1 ran h)

  segment_loop-Keeps :
      (fuel : ℕ) (left : ℤ) (buf : Bytes) (s s' : Progress S)
      → segment_loop handle fuel left buf s ≡ ok s'
      → Keeps s.state
      → Keeps s'.state
  unfolding segment_loop
  segment_loop-Keeps zero left buf s s' = λ e h. absurd (stuck e)
  segment_loop-Keeps (suc fuel) left buf s s' = elim (Bool-cases (leb_ℤ left (pos 0))) [
    | inl over ↦
        rw over λ e h. let same : s ≡ s' = cc in subst (λ (p : Progress S). Keeps p.state) same h
    | inr more ↦ rw more λ e h.
        let (r, ran, e1) = bind-eq-ok (segment handle fuel buf s) _ e in
        let (left', _, e2) = bind-eq-ok (sub_int left r.0) _ e1 in
        segment_loop-Keeps fuel left' r.1 r.2 s' e2 (segment-Keeps fuel buf r.1 r.0 s r.2 ran h)
  ]

  pub handle_message-Keeps :
      (fuel : ℕ) (buf : Bytes) (recv_len : ℤ) (done : Bool) (s s' : Progress S)
      → handle_message handle fuel buf recv_len s ≡ ok (done, s')
      → Keeps s.state
      → Keeps s'.state
  unfolding handle_message
  handle_message-Keeps fuel buf recv_len done s s' e h =
      let (w, _, e1) = bind-eq-ok (load32 buf) _ e in taken (ltb_ℤ recv_len (to_int (htonl w))) e1
    where
      taken :
          (cut : Bool)
          → ◌≡◌ {A = Run (Bool × Progress S)}
              (if cut then ok (true, s) else (do
                t ← segment_loop handle fuel recv_len buf (record s { done = false })
                ok (t.done, t)))
              (ok (done, s'))
          → Keeps s'.state
      taken true e1 = let same : s ≡ s' = cc in subst (λ (p : Progress S). Keeps p.state) same h
      taken false e1 =
          let (t, ran, e2) =
            bind-eq-ok (segment_loop handle fuel recv_len buf (record s { done = false })) _ e1 in
          let same : t ≡ s' = cc in
          subst (λ (p : Progress S). Keeps p.state) same
            (segment_loop-Keeps fuel recv_len buf (record s { done = false }) t ran h)
