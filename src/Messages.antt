-- ===== src/Messages.antt =====
-- The loop that takes the messages out of what one `recv` returned. It stands three times in the
-- source, with another handler each time: `handleClientMessage` of server/src/server.c,
-- `handleServerMessage` of client/src/client.c and `handleNetworkMessage` of
-- client/src/cli_commands.c. The handler and what it keeps are parameters here.
--
-- A C `int` is an integer, and a subtraction that leaves its range is a `fault`. The pointer `buf`
-- is the list of the bytes up to the end of the receive array, so reading behind it faults.
pub mod Stream
pub mod Text
pub mod Network
pub mod Reply
pub mod Zero
pub mod Invariant
use pyramid.Prelude.{
  to_int, ℕ, zero, suc, ◌+◌, ◌-◌, ◌^◌, Bool, true, false, ◌||◌, Option, none, some, List, [], ◌∷◌,
  ltb, leb, if◌then◌else◌, ℤ, pos, negsuc, ◌-ℤ◌, ltb_ℤ, leb_ℤ,
}
use pyramid.Wire.{Run, ok, fault, out_of_fuel, ◌>>=◌, Bytes, htonl, load32, advance}
use pyramid.Tlv.{Tlv, decode}

-- `a - b` on `int`s.
unfoldable pub sub_int : ℤ → ℤ → Run ℤ
unfolding ◌-ℤ◌
sub_int a b =
    let d = a -ℤ b in
    if ltb_ℤ d (negsuc 2147483647) || ltb_ℤ (pos 2147483647) d then fault else ok d

-- What a loop keeps: the group array, the flag `done`, and the handler's own state.
pub record Progress {ℓ} (S : Type ℓ) : Type ℓ where
  pub g_groups : List ℕ
  pub done : Bool
  pub state : S

module _ {ℓ} {S : Type ℓ} (handle : Tlv → Progress S → Run (Progress S)) where
  -- `while (lenFromHdr > 0)`: the pointer behind the segment and the progress.
  tlv_loop : ℕ → ℤ → Bytes → Progress S → Run (Bytes × Progress S)
  tlv_loop zero len buf s = out_of_fuel
  tlv_loop (suc fuel) len buf s =
      let round = (do
        (tlv, g) ← decode buf s.g_groups
        len' ← sub_int len (pos (tlv.length + 4))
        buf' ← advance (tlv.length + 4) buf
        s' ← handle tlv (record s { g_groups = g })
        tlv_loop fuel len' buf' s') in
      if leb_ℤ len (pos 0) then ok (buf, s) else round

  -- One round of `while (recvLen > 0)`: the length of the segment, the pointer behind it and the
  -- progress.
  segment : ℕ → Bytes → Progress S → Run (ℤ × Bytes × Progress S)
  unfolding tlv_loop
  segment fuel buf s = do
    w ← load32 buf
    let size = to_int (htonl w)
    body ← advance 4 buf
    len ← sub_int size (pos 4)
    (rest, s') ← tlv_loop fuel len body s
    ok (size, rest, s')

  -- `while (recvLen > 0)`
  segment_loop : ℕ → ℤ → Bytes → Progress S → Run (Progress S)
  segment_loop zero left buf s = out_of_fuel
  segment_loop (suc fuel) left buf s =
      let round = (do
        (size, rest, s') ← segment fuel buf s
        left' ← sub_int left size
        segment_loop fuel left' rest s') in
      if leb_ℤ left (pos 0) then ok s else round

  -- The whole function. Where the first segment is cut off it returns `true`, and else `done`.
  unfoldable pub handle_message : ℕ → Bytes → ℤ → Progress S → Run (Bool × Progress S)
  unfolding segment_loop segment
  handle_message fuel buf recv_len s = do
    w ← load32 buf
    if ltb_ℤ recv_len (to_int (htonl w))
        then ok (true, s)
        else (do s' ← segment_loop fuel recv_len buf (record s { done = false }); ok (s'.done, s'))
