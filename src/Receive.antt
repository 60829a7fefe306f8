-- ===== src/Receive.antt =====
-- The loops that call `recv` until nothing is left: `receive_data` of server/src/server.c and
-- `receive_exec_request` of client/src/client.c, up to the test of `done`. The results of `recv` are
-- a list, one for each call.
pub mod Batches
pub mod Invariant
use pyramid.Prelude.{
  ℕ, suc, ◌+◌, Bool, true, not, List, [], ◌∷◌, ◌++◌, length, leb, ◌==◌, if◌then◌else◌, pos,
}
use pyramid.Wire.{Run, ok, fault, out_of_fuel, ◌>>=◌, Bytes}
use pyramid.Tlv.{Tlv}
use pyramid.Messages.{Progress, handle_message}

-- The bytes that `recv` wrote, or -1 with whether `errno` is EAGAIN.
pub data Received : Type 0 where
  bytes : Bytes → Received
  failed : Bool → Received

-- `behind` is what lies in the array behind the NUL that the loop puts after the received bytes.
-- The NUL for -1 or for 1024 bytes is outside the array: the first is written to the byte before
-- it, and `spare` says whether the compiler has left this byte to nothing else.
module _ {ℓ} {S : Type ℓ} (handle : Tlv → Progress S → Run (Progress S)) (fuel : ℕ) (behind : Bytes)
    (spare : Bool) where
  unfoldable pub receive_data : List Received → Progress S → Run (Bool × Progress S)
  receive_data [] s = out_of_fuel
  receive_data (failed again ∷ rs) s = if spare then ok (not again, s) else fault
  receive_data (bytes b ∷ rs) s =
      let handled = (do
        (cut, s') ← handle_message handle fuel (b ++ (0 ∷ behind)) (pos (length b)) s
        receive_data rs s') in
      if leb 1024 (length b) then fault else if length b == 0 then ok (true, s) else handled
