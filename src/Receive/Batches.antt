-- ===== src/Receive/Batches.antt =====
-- The receiving loops on whole messages, in as many pieces as the peer sent.
use pyramid.Prelude.{
  ℕ, suc, ◌+◌, ◌<◌, ◌≡◌, refl, ◌∙◌, Bool, true, false, List, [], ◌∷◌, ◌++◌, arith, length, All, leb,
  ◌==◌, append_assoc, append-nil, map,
}
use pyramid.Wire.{ok, Bytes}
use pyramid.Messages.{Progress}
use pyramid.Messages.Stream.{Message, stream}
use pyramid.Messages.Text.{IsText, record_text, handle_message-record_text}
use pyramid.Receive.{Received, bytes, failed, receive_data}

-- What one `recv` returns: one or more whole messages of text, less than 1024 bytes together, and
-- for each round of the loop one unit of fuel.
pub record IsBatch (fuel : ℕ) (ms : List Message) : Type 0 where
  pub texts : All IsText ms
  pub not_empty : 0 < length ms
  pub rounds : length ms + 1 < fuel
  pub small : length (stream ms) < 1024

abbrev pub all_messages : List (List Message) → List Message
all_messages [] = []
all_messages (ms ∷ batches) = ms ++ all_messages batches

-- What ends the loop, with the `done` that it leaves: the peer has closed the connection, there is
-- no more to read for now, or the call failed.
pub data Ends : Bool → Received → Bool → Type 0 where
  closed : {spare : Bool} → Ends spare (bytes []) true
  drained : Ends true (failed true) false
  broken : Ends true (failed false) true

ended :
    (f : ℕ) (behind : Bytes) (spare : Bool) (last : Received) (done : Bool)
    (s : Progress (List Message))
    → Ends spare last done
    → receive_data record_text (suc f) behind spare (last ∷ []) s ≡ ok (done, s)
unfolding receive_data
ended f behind _ _ _ s closed = refl
ended f behind _ _ _ s drained = refl
ended f behind _ _ _ s broken = refl

module _ (f : ℕ) (behind : Bytes) (spare : Bool) where
  handled_batch :
      (ms : List Message) (rs : List Received) (s : Progress (List Message))
      → IsBatch f ms
      → receive_data record_text (suc f) behind spare (bytes (stream ms) ∷ rs) s
        ≡ receive_data record_text
            (suc f)
            behind
            spare
            rs
            (record { g_groups = s.g_groups; done = false; state = s.state ++ ms })
  unfolding receive_data
  handled_batch [] rs s h = absurd (omega (arith, h.not_empty))
  handled_batch (m ∷ ms) rs s h =
      let fits : leb 1024 (length (stream (m ∷ ms))) ≡ false = ground (arith, h.small) in
      let opened : (length (stream (m ∷ ms)) == 0) ≡ false = ground arith in
      rw
        (
          fits,
          opened,
          handle_message-record_text f m ms behind s h.texts (omega (arith, h.rounds))
              (omega (arith, h.small)),
        )
        refl

  -- What the peer sent in one or more pieces of whole messages of text, each piece below 1024
  -- bytes, before it closed the connection, the socket had no more or `recv` failed, reaches the
  -- handler as it was sent, and the loop ends with `done` set but where there was only no more. No
  -- fault comes from it, whatever lies in the array behind the received bytes, if the byte before
  -- the array is spare where `recv` does not end with the closed connection.
  pub receive_data-record_text :
      (batches : List (List Message)) (last : Received) (done : Bool) (s : Progress (List Message))
      → All (IsBatch f) batches
      → Ends spare last done
      → s.done ≡ false
      → receive_data record_text
          (suc f)
          behind
          spare
          (map (λ ms. bytes (stream ms)) batches ++ (last ∷ []))
          s
        ≡ ok (done, record s { state = s.state ++ all_messages batches })
  receive_data-record_text [] last done s h ends idle =
      rw append-nil (ended f behind spare last done s ends)
  receive_data-record_text (ms ∷ batches) last done s (h, hs) ends idle =
      let s1 : Progress (List Message) = record {
        g_groups = s.g_groups;
        done = false;
        state = s.state ++ ms;
      } in
      handled_batch ms (map (λ l. bytes (stream l)) batches ++ last ∷ []) s h
      ∙ (receive_data-record_text batches last done s1 hs ends refl
          ∙ rw (append_assoc s.state ms (all_messages batches), idle) refl)
