-- ===== src/Receive/Invariant.antt =====
-- What every call of a handler keeps, the loop over `recv` keeps.
use pyramid.Prelude.{
  ℕ, ◌≡◌, subst, inl, inr, Bool, true, false, List, [], ◌∷◌, ◌++◌, Bool-cases, length, leb, ◌==◌,
  pos,
}
use pyramid.Wire.{Run, ok, fault, out_of_fuel, Bytes}
use pyramid.Wire.Laws.{bind-eq-ok}
use pyramid.Tlv.{Tlv}
use pyramid.Messages.{Progress, handle_message}
use pyramid.Messages.Invariant.{handle_message-Keeps}
use pyramid.Receive.{Received, bytes, failed, receive_data}

stuck {ℓ} : {A : Type ℓ} {a : A} → out_of_fuel ≡ ok a → ⊥
stuck e = cc

faulty {ℓ} : {A : Type ℓ} {a : A} → fault ≡ ok a → ⊥
faulty e = cc

module _ {ℓ κ} {S : Type ℓ} (handle : Tlv → Progress S → Run (Progress S)) (Keeps : S → Type κ)
    (step : (tlv : Tlv) (s s' : Progress S) → handle tlv s ≡ ok s' → Keeps s.state → Keeps s'.state)
    (fuel : ℕ) (behind : Bytes) where
  same_end :
      {x y : Bool} {s t : Progress S}
      → ◌≡◌ {A = Run (Bool × Progress S)} (ok (x, s)) (ok (y, t))
      → Keeps s.state
      → Keeps t.state
  same_end {s = s} {t} e h =
      let same : s ≡ t = cc in subst (λ (p : Progress S). Keeps p.state) same h

  pub receive_data-Keeps :
      (spare : Bool) (rs : List Received) (done : Bool) (s s' : Progress S)
      → receive_data handle fuel behind spare rs s ≡ ok (done, s')
      → Keeps s.state
      → Keeps s'.state
  unfolding receive_data
  receive_data-Keeps spare [] done s s' = λ e h. absurd (stuck e)
  receive_data-Keeps true (failed again ∷ rs) done s s' = λ e h. same_end e h
  receive_data-Keeps false (failed again ∷ rs) done s s' = λ e h. absurd (faulty e)
  receive_data-Keeps spare (bytes b ∷ rs) done s s' = elim (Bool-cases (leb 1024 (length b))) [
    | inl full ↦ rw full λ e h. absurd (faulty e)
    | inr fits ↦ elim (Bool-cases (length b == 0)) [
      | inl closed ↦ rw (fits, closed) λ e h. same_end e h
      | inr some_bytes ↦
          rw (fits, some_bytes)
            λ e h.
              let (r, handled, e1) =
                bind-eq-ok (handle_message handle fuel (b ++ (0 ∷ behind)) (pos (length b)) s) _
                  e in
              receive_data-Keeps spare rs done r.1 s' e1 (
                handle_message-Keeps handle Keeps step fuel (b ++ (0 ∷ behind)) (pos (length b)) r.0
                  s r.1 handled h)
    ]
  ]
