-- ===== src/Worker/Start.antt =====
-- client/src/client.c: the command line's arguments, and the groups that a worker joins.
use pyramid.Prelude.{
  ℕ, ◌+◌, ◌-◌, ◌%◌, Bool, true, false, ◌&&◌, Option, none, some, List, [], ◌∷◌, length, leb,
  if◌then◌else◌, ℤ, pos, negsuc, ltb_ℤ,
}
use pyramid.Wire.{Run, ok, exit, ◌>>=◌, Bytes, htons, store}
use pyramid.Tlv.Decode.{words}
use pyramid.Sending.{Socket, Outcome, send_joining_groups}
use pyramid.Cli.{strings_equal}

-- `isdigit` of every character.
unfoldable pub all_digits : Bytes → Bool
all_digits [] = true
all_digits (c ∷ ps) = leb 48 c && (leb c 57 && all_digits ps)

-- The 16 and the 32 bits that an `int` is converted to.
unfoldable pub to_port : ℤ → ℕ
to_port (pos n) = n % 65536
to_port (negsuc n) = 65535 - n % 65536

pub to_word : ℤ → ℕ
to_word (pos n) = n % 4294967296
to_word (negsuc n) = 4294967295 - n % 4294967296

-- `inet_aton` gives an address, and `number` is `atoi`.
module _ (inet_aton : Bytes → Option ℕ) (number : Bytes → ℤ) where
  -- `sip` and `sp`, or `none` for FALSE. `argv` is what stands behind the program's name.
  unfoldable pub client_input_sanity_check : List Bytes → Option (ℕ × ℕ)
  unfolding all_digits to_port htons
  client_input_sanity_check (address ∷ ps ∷ group ∷ groups) = elim (inet_aton address) [
    | none ↦ none
    | some sip ↦
        if all_digits ps
        then (if ltb_ℤ (pos 65535) (number ps)
            then none
            else some (sip, htons (to_port (number ps))))
        else none
  ]
  client_input_sanity_check _ = none

  -- `groups[i] = atoi(argv[i+3])`, from the index `i` on.
  unfoldable pub put_arguments : List Bytes → ℕ → List ℕ → Run (List ℕ)
  unfolding to_word
  put_arguments [] i groups = ok groups
  put_arguments (arg ∷ args) i groups = do
    stored ← store groups i (to_word (number arg) ∷ [])
    put_arguments args (i + 1) stored

  -- "CLI"
  abbrev pub cli_word : Bytes
  cli_word = b'C' ∷ b'L' ∷ b'I' ∷ []

  abbrev pub is_cli : List Bytes → Bool
  is_cli (group ∷ []) = strings_equal group cli_word
  is_cli _ = false

  -- What `main` does up to the wait for a task: `none` where it runs the command line instead.
  -- `groups` is what the array of 255 words holds.
  unfoldable pub join : (ℕ → ℕ → Option ℕ) → List Bytes → List ℕ → Socket → Run (Option Outcome)
  unfolding put_arguments send_joining_groups strings_equal
  join send args groups k =
      let worker = (do
        filled ← put_arguments args 0 groups
        o ← send_joining_groups send (words filled) (pos (length args)) k
        ok (some o)) in
      if is_cli args then ok none else worker

  unfoldable pub client_main :
      (ℕ → ℕ → Option ℕ) → List Bytes → List ℕ → Socket → Run (Option Outcome)
  unfolding client_input_sanity_check join
  client_main send argv groups k = elim (client_input_sanity_check argv) [
    | none ↦ exit
    | some server ↦ join send (behind_port argv) groups k
  ]
    where
      behind_port : List Bytes → List Bytes
      behind_port (address ∷ ps ∷ args) = args
      behind_port _ = []
