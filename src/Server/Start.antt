-- ===== src/Server/Start.antt =====
-- server/src/server.c: the port that the server listens on, and its tables.
use pyramid.Prelude.{
  as_int, IsInt, ℕ, ◌<◌, ◌≡◌, ◌⊎◌, inl, inr, refl, Bool, true, false, ◌||◌, ◌&&◌, List, [], ◌∷◌,
  arith, length, if◌then◌else◌, ℤ, pos, negsuc, leb_ℤ,
}
use pyramid.Wire.{Bytes}
use pyramid.Links.{is_null}

abbrev pub is_zero : ℤ → Bool
is_zero n = leb_ℤ n (pos 0) && leb_ℤ (pos 0) n

-- LONG_MIN and LONG_MAX
abbrev pub long_min : ℤ
long_min = negsuc 9223372036854775807

abbrev pub long_max : ℤ
long_max = pos 9223372036854775807

abbrev pub not_empty : Bytes → Bool
not_empty [] = false
not_empty (c ∷ p) = true

-- What `validate_port_number` makes of the number and of what follows it.
pub accept_port : ℤ → Bytes → ℤ
unfolding as_int
accept_port server_port temp =
    if not_empty temp
      || (leb_ℤ server_port long_min
          || (leb_ℤ long_max server_port
              || (leb_ℤ (pos 0) server_port && leb_ℤ server_port (pos 1023))))
    then pos 0
    else as_int server_port

-- Below 0, or above 1023.
abbrev pub IsOutside : ℤ → Type 0
IsOutside n = (leb_ℤ n (negsuc 0) ≡ true) ⊎ (leb_ℤ (pos 1024) n ≡ true)

-- Something stands behind the number, or it is one of 0 to 1023.
abbrev pub IsRefused : ℤ → Bytes → Type 0
IsRefused n temp = (0 < length temp) ⊎ ((leb_ℤ (pos 0) n ≡ true) × (leb_ℤ n (pos 1023) ≡ true))

accept_port-cases :
    (n : ℤ) (temp : Bytes)
    → IsInt n
    → ((accept_port n temp ≡ pos 0) × IsRefused n temp)
      ⊎ ((accept_port n temp ≡ n) × (temp ≡ []) × IsOutside n)
unfolding accept_port as_int
accept_port-cases n (c ∷ temp) is = inl (refl, inl (omega arith))
accept_port-cases (pos n) [] (low, high) = ground arith
accept_port-cases (negsuc n) [] (low, high) = ground arith

-- `strtol` gives the number and what follows it in the string.
module _ (strtol : Bytes → ℤ × Bytes) where
  pub validate_port_number : Bytes → ℤ
  unfolding accept_port
  validate_port_number port = accept_port (strtol port).0 (strtol port).1

  -- `main`; `argv` is what stands behind the program's name.
  unfoldable pub choose_port : List Bytes → ℤ
  unfolding validate_port_number
  choose_port [] = pos 51729
  choose_port (port ∷ args) =
      let p = validate_port_number port in if is_zero p then pos 51729 else p

  choose_port-nonzero : (p : ℤ) → IsOutside p → is_zero p ≡ false
  choose_port-nonzero (pos n) h = ground arith
  choose_port-nonzero (negsuc n) h = ground arith

  -- Where the number in the first argument fits an `int`, the `int` that `main` hands on as the port
  -- is this number, if it is not one of 0 to 1023 and nothing stands behind it, and 51729 otherwise:
  -- a number below 0 or above 65535 is not refused.
  pub choose_port-cases :
      (port : Bytes) (args : List Bytes)
      → IsInt (strtol port).0
      → ((choose_port (port ∷ args) ≡ pos 51729) × IsRefused (strtol port).0 (strtol port).1)
        ⊎ ((choose_port (port ∷ args) ≡ (strtol port).0)
            × ((strtol port).1 ≡ [])
            × IsOutside (strtol port).0)
  unfolding choose_port validate_port_number
  choose_port-cases port args is = elim (accept_port-cases (strtol port).0 (strtol port).1 is) [
    | inl (refused, why) ↦ inl (rw refused refl, why)
    | inr (accepted, nothing, outside) ↦
        inr (rw (accepted, choose_port-nonzero (strtol port).0 outside) refl, nothing, outside)
  ]

-- The result of the two calls of `calloc`; the second test reads the first result again.
unfoldable pub server_alloc_memory : ℕ → ℕ → Bool
server_alloc_memory multicast_groups client_hash_map =
    if is_null multicast_groups then false else if is_null multicast_groups then false else true
