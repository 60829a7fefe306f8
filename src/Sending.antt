-- ===== src/Sending.antt =====
-- The loop that sends a string as one message. It stands in `sh_send_encoded_data` of
-- server/src/server_helper.c, in `send_data` of client/src/client.c and in `request_cli_data` of
-- client/src/cli_commands.c. The system call `send` is a parameter: for the number of the call and
-- the count of bytes offered it says how many were taken, or `none` for -1, on which the program
-- exits.
pub mod Laws
pub mod Cli
use pyramid.Prelude.{
  ℕ, zero, suc, ◌+◌, Bool, Option, none, some, List, [], ◌∷◌, ◌++◌, if◌then◌else◌, ltb, length,
  take, as_int, ℤ, pos, leb_ℤ, ◌-ℤ◌,
}
use pyramid.Wire.{Run, ok, fault, out_of_fuel, ◌>>=◌, Bytes, fetch, c_string, store}
use pyramid.Tlv.{Buffer, encode}
use pyramid.Tlv.Attribute.{cli_data, join_group}

-- `memset(payload, 0, n)`
unfoldable pub zeros : ℕ → Bytes
zeros zero = []
zeros (suc n) = 0 ∷ zeros n

-- `char payload[1024]; memset(payload, 0, 1024); buf.length = 0;`
unfoldable pub empty_buffer : Buffer
unfolding zeros
empty_buffer = record { length = 0; payload = zeros 1024 }

-- What a socket was given, and by how many calls.
pub record Socket : Type 0 where
  pub calls : ℕ
  pub out : Bytes

pub data Outcome : Type 0 where
  returned : Socket → Outcome
  exited : Socket → Outcome

-- `strlen`; a string with no NUL before the end of its array is read past it.
unfoldable pub strlen : Bytes → Run ℕ
strlen [] = fault
strlen (zero ∷ p) = ok 0
strlen (suc b ∷ p) = do n ← strlen p; ok (suc n)

module _ (send : ℕ → ℕ → Option ℕ) where
  -- One round of the loop: the bytes offered to `send`, and what it took of them.
  unfoldable pub transmit : ℕ → Bytes → ℤ → Socket → Run (Option ℕ × Socket)
  unfolding empty_buffer
  transmit type chars len s = do
    (n, buf) ← encode type chars len empty_buffer
    bytes ← fetch n buf.payload
    let taken = send s.calls n
    ok (
      taken,
      record {
        calls = s.calls + 1;
        out = s.out ++ elim taken [ none ↦ [] | some k ↦ take k bytes ];
      },
    )

  -- `while (len > 0)`
  unfoldable pub send_loop : ℕ → ℕ → Bytes → ℤ → Socket → Run Outcome
  unfolding transmit
  send_loop zero type chars len s = out_of_fuel
  send_loop (suc fuel) type chars len s =
      let round = (do
        (taken, s') ← transmit type chars len s
        elim taken [
          | none ↦ ok (exited s')
          | some k ↦ send_loop fuel type chars (len -ℤ pos k) s'
        ]) in
      if leb_ℤ len (pos 0) then ok (returned s) else round

  unfoldable pub sh_send_encoded_data : ℕ → Bytes → ℕ → Socket → Run Outcome
  unfolding send_loop strlen as_int
  sh_send_encoded_data fuel chars type s = do
    n ← strlen chars
    send_loop fuel type chars (as_int (pos n)) s

  unfoldable pub send_data : ℕ → Bytes → ℕ → Socket → Run Outcome
  unfolding send_loop strlen as_int
  send_data fuel buffer algo s = do n ← strlen buffer; send_loop fuel algo buffer (as_int (pos n)) s

  -- The string is first copied with its NUL into an array of 80 bytes.
  pub request_cli_data : ℕ → Bytes → Socket → Run Outcome
  unfolding send_loop strlen zeros as_int
  request_cli_data fuel cli_buff s = do
    n ← strlen cli_buff
    copied ← fetch (suc n) cli_buff
    buffer ← store (zeros 80) 0 copied
    len ← strlen buffer
    send_loop fuel cli_data buffer (as_int (pos len)) s

  -- `send_joining_groups` of client/src/client.c: one call, for the groups as they lie in memory.
  unfoldable pub send_joining_groups : Bytes → ℤ → Socket → Run Outcome
  unfolding transmit
  send_joining_groups groups numgroups s = do
    (taken, s') ← transmit join_group groups numgroups s
    ok (elim taken [ none ↦ exited s' | some k ↦ returned s' ])
