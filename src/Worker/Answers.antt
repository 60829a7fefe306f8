-- ===== src/Worker/Answers.antt =====
-- A worker's answers: the largest number of the file, or an error.
use pyramid.Prelude.{
  ℕ, zero, suc, ◌≤◌, ◌≡◌, refl, ap, ◌∙◌, Option, none, some, List, [], ◌∷◌, ◌++◌, length, pos, ◌-ℤ◌,
}
use pyramid.Wire.{Run, ok, ◌>>=◌, Bytes, store, load32, htonl, htons}
use pyramid.Wire.Laws.{fetch-append}
use pyramid.Tlv.{Tlv, encode}
use pyramid.Tlv.Attribute.{algo_max, algo_error}
use pyramid.Tlv.Frame.{frame, tlv_bytes}
use pyramid.Messages.{Progress}
use pyramid.Sending.{Socket, send_data, send_loop, transmit, empty_buffer, strlen, zeros}
use pyramid.Sending.Laws.{after_frame}
use pyramid.Worker.{
  Worker, Host, wget, send_answer, send_chars, handle_exec_data, client_error_type,
}
use pyramid.Worker.Tasks.{IsTask, find_number-missing, handle_exec_data-IsTask}

-- The value of the error's message: the first four characters of the text in the other order, once
-- for each of its 17 characters.
pub error_value : ℕ → Bytes
error_value zero = []
error_value (suc n) = b'i' ∷ b'l' ∷ b'C' ∷ 10 ∷ error_value n

encode-client_error_type :
    encode algo_error (client_error_type ++ (0 ∷ [])) (pos 17) empty_buffer
    ≡ ok (
      76,
      record { length = 76; payload = frame (tlv_bytes algo_error (error_value 17)) ++ zeros 948 },
    )
unfolding encode error_value empty_buffer zeros store load32 htonl htons
encode-client_error_type = refl

-- The one frame of an error.
abbrev pub after_error : (ℕ → ℕ → Option ℕ) → Socket → Socket
after_error send k = after_frame send algo_error (error_value 17) k

module _ (host : Host) (f : ℕ) (takes : (c n : ℕ) → host.send c n ≡ some n) where
  transmit-error :
      (k : Socket)
      → transmit host.send algo_error (client_error_type ++ (0 ∷ [])) (pos 17) k
        ≡ ok (some 76, after_error host.send k)
  unfolding transmit error_value
  transmit-error k =
      rw
        (
          encode-client_error_type,
          fetch-append (frame (tlv_bytes algo_error (error_value 17))) (zeros 948),
          takes k.calls 76,
        )
        refl

  send_answer-none :
      (w : Worker)
      → send_answer host (suc (suc f)) none w
        ≡ ok (record w { socket = after_error host.send w.socket })
  unfolding send_answer send_chars send_data send_loop strlen ◌-ℤ◌
  send_answer-none w = rw (transmit-error w.socket) refl

-- What a worker answers to the message `tlv` of a task.
module _ (host : Host) (f : ℕ) (dir name more : Bytes) (is : IsTask host dir name)
    (enough : length dir ≤ suc f) (takes : (c n : ℕ) → host.send c n ≡ some n) (tlv : Tlv)
    (p : Progress Worker) (type : tlv.type ≡ algo_max)
    (value : tlv.value ≡ some ((dir ++ (47 ∷ name)) ++ (0 ∷ more))) where
  abbrev w : Worker
  w = p.state

  abbrev fetched_files : Bytes → Option (List Bytes)
  fetched_files = host.system (wget (dir ++ (47 ∷ name)) name) w.files

  -- For such a task, if the repository gives no file, an error is sent, in one frame, and no file
  -- is written. The plug-in is loaded, there are as many rounds as the directory has characters
  -- and one, and `send` takes every frame whole.
  pub handle_exec_data-error :
      fetched_files name ≡ none
      → handle_exec_data host (suc (suc f)) tlv p
        ≡ ok (record p {
          state = record { files = fetched_files; socket = after_error host.send w.socket };
        })
  handle_exec_data-error missing =
      handle_exec_data-IsTask host f dir name more is enough tlv p type value
      ∙ ap
          (λ m. (m >>= λ r. send_answer host (suc (suc f)) r.0 r.1) >>= λ w1.
            ok (record p { state = w1 }))
          (find_number-missing host f w name (dir ++ (47 ∷ name)) more is.free missing)
      ∙ ap (λ (m : Run Worker). m >>= λ w1. ok (record p { state = w1 }))
          (send_answer-none host f takes (record w { files = fetched_files }))
