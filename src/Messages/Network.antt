-- ===== src/Messages/Network.antt =====
-- `handle_data` and `handleNetworkMessage` of client/src/cli_commands.c.
use pyramid.Prelude.{
  ℕ, Bool, true, false, ◌||◌, Option, none, some, List, [], ◌∷◌, ◌++◌, ◌==◌, if◌then◌else◌, ℤ,
}
use pyramid.Wire.{Run, ok, fault, ◌>>=◌, Bytes, c_string}
use pyramid.Tlv.{Tlv}
use pyramid.Tlv.Attribute.{cli_data, algo_error, algo_max, algo_sort, good_bye}
use pyramid.Messages.{Progress, handle_message}

-- What the command line keeps: the flag `exec`, and the texts that it has printed, one for each
-- `printf`.
pub record Screen : Type 0 where
  pub exec : Bool
  pub printed : List Bytes

abbrev pub prints : ℕ → Bool
prints t = t == cli_data || t == algo_max || t == algo_sort

abbrev pub say : Bytes → Screen → Screen
say text screen = record screen { printed = screen.printed ++ text ∷ [] }

-- "\n %s" for a value, and the texts of ALGO_ERROR, of GOOD_BYE and of the default branch.
abbrev pub value_line : Bytes → Bytes
value_line v = 10 ∷ 32 ∷ v

abbrev failure_line : Bytes
failure_line =
    (10 ∷ b'F' ∷ b'a' ∷ b'i' ∷ b'l' ∷ b'e' ∷ b'd' ∷ 32 ∷ b't' ∷ b'o' ∷ 32 ∷ b'e' ∷ b'x' ∷ b'e'
      ∷ b'c' ∷ b'u' ∷ b't' ∷ b'e' ∷ 32 ∷ b'J' ∷ b'o' ∷ b'b' ∷ b'!' ∷ b'!' ∷ b'!' ∷ 32 ∷ 10 ∷ [])
    ++ (b'T' ∷ b'h' ∷ b'i' ∷ b's' ∷ 32 ∷ b'm' ∷ b'i' ∷ b'g' ∷ b'h' ∷ b't' ∷ 32 ∷ b'b' ∷ b'e' ∷ 32
        ∷ b'd' ∷ b'u' ∷ b'e' ∷ 32 ∷ b't' ∷ b'o' ∷ 32 ∷ b'w' ∷ b'r' ∷ b'o' ∷ b'n' ∷ b't' ∷ 32 ∷ b'f'
        ∷ b'i' ∷ b'l' ∷ b'e' ∷ 32 ∷ b'p' ∷ b'a' ∷ b't' ∷ b'h' ∷ 32 ∷ b'o' ∷ b'r' ∷ 32 ∷ [])
    ++ (b'u' ∷ b'n' ∷ b'a' ∷ b'v' ∷ b'a' ∷ b'i' ∷ b'l' ∷ b'a' ∷ b'b' ∷ b'i' ∷ b'l' ∷ b'i' ∷ b't'
        ∷ b'y' ∷ 32 ∷ b'o' ∷ b'f' ∷ 32 ∷ b'r' ∷ b'e' ∷ b's' ∷ b'o' ∷ b'u' ∷ b'r' ∷ b'c' ∷ b'e'
        ∷ b's' ∷ b'.' ∷ 32 ∷ [])

abbrev pub goodbye_line : Bytes
goodbye_line =
    10 ∷ b'-' ∷ b'-' ∷ b'-' ∷ b'-' ∷ b'-' ∷ b'-' ∷ b'-' ∷ b'-' ∷ b'-' ∷ b'-' ∷ 32 ∷ 10 ∷ []

abbrev unknown_line : Bytes
unknown_line =
    10 ∷ b'h' ∷ b'a' ∷ b'n' ∷ b'd' ∷ b'l' ∷ b'e' ∷ b'_' ∷ b'd' ∷ b'a' ∷ b't' ∷ b'a' ∷ 32 ∷ b':' ∷ 32
    ∷ b'u' ∷ b'n' ∷ b'k' ∷ b'n' ∷ b'o' ∷ b'w' ∷ b'n' ∷ 32 ∷ b'A' ∷ b't' ∷ b't' ∷ b'r' ∷ b'i' ∷ b'b'
    ∷ b'u' ∷ b't' ∷ b'e' ∷ b',' ∷ 32 ∷ b'c' ∷ b'a' ∷ b'n' ∷ 39 ∷ b't' ∷ 32 ∷ b'h' ∷ b'a' ∷ b'n'
    ∷ b'd' ∷ b'l' ∷ b'e' ∷ 32 ∷ []

-- `printf("\n %s", tlv.value)`
unfoldable pub print_value : Option Bytes → Progress Screen → Run (Progress Screen)
print_value none s = fault
print_value (some v) s =
    ok (record s { done = false; state = say (value_line (c_string v)) s.state })

-- The result is the new `done`; the -1 of the default branch becomes `true`.
unfoldable pub handle_data : Tlv → Progress Screen → Run (Progress Screen)
unfolding print_value
handle_data tlv s =
    if prints tlv.type
    then print_value tlv.value s
    else if tlv.type == algo_error
    then ok (record s { done = false; state = record (say failure_line s.state) { exec = false } })
    else if tlv.type == good_bye
    then ok (record s { done = true; state = say goodbye_line s.state })
    else ok (record s { done = true; state = say unknown_line s.state })

-- `decode` is given NULL for the array of groups.
unfoldable pub handle_network_message : ℕ → Bytes → ℤ → Screen → Run (Bool × Screen)
unfolding handle_data
handle_network_message fuel buf recv_len screen = do
  (result, s) ←
      handle_message handle_data fuel buf recv_len
        (record { g_groups = []; done = false; state = screen })
  ok (result, s.state)
