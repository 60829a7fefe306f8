-- ===== src/Server/Chunks.antt =====
-- `sh_try_to_send_data` of server/src/server_helper.c against a description with no buffer: texts
-- are put together until the next one does not fit, and each such chunk is one message.
use pyramid.Prelude.{
  ℕ, zero, suc, ◌+◌, ◌<◌, ◌≤◌, ◌≡◌, ◌⊎◌, inl, inr, refl, sym, ap, ◌∙◌, fun_ext, Bool, false, Option,
  List, [], ◌∷◌, ◌++◌, arith, length, length-append, append_assoc, leb, ◌==◌, if◌then◌else◌, update,
  Bool-cases,
}
use pyramid.Wire.{Run, ok, ◌>>=◌, Bytes, store}
use pyramid.Wire.Laws.{NulFree, fetch-append, store-append}
use pyramid.Sending.{Socket}
use pyramid.Sending.Laws.{strlen-append, after_frame}
use pyramid.Central.{text}
use pyramid.Server.{System, Server}
use pyramid.Server.Display.{add_text}

-- Does the text `p` not fit behind `cur`?
abbrev pub is_full : Bytes → Bytes → Bool
is_full cur p = leb 1024 (length cur + length p + 1)

-- The chunks that texts make behind `cur`.
unfoldable pub chunks : Bytes → List Bytes → List Bytes
chunks cur [] = if length cur == 0 then [] else cur ∷ []
chunks cur (p ∷ ps) =
    let sent = cur ∷ chunks p ps in
    let kept = chunks (cur ++ p) ps in if is_full cur p then sent else kept

abbrev pub concat : List Bytes → Bytes
concat [] = []
concat (b ∷ bs) = b ++ concat bs

-- Nothing is lost, added or moved by the cut into chunks.
pub concat-chunks : (cur : Bytes) (ps : List Bytes) → concat (chunks cur ps) ≡ cur ++ concat ps
unfolding chunks
concat-chunks [] [] = refl
concat-chunks (c ∷ cur) [] =
    let some_left : (suc (length cur) == 0) ≡ false = ground arith in rw some_left refl
concat-chunks cur (p ∷ ps) = elim (Bool-cases (is_full cur p)) [
  | inl e ↦ rw e (ap (λ (l : Bytes). cur ++ l) (concat-chunks p ps))
  | inr e ↦ rw e (concat-chunks (cur ++ p) ps ∙ append_assoc cur p (concat ps))
]

pub chunks-one :
    (line : Bytes) → 0 < length line → length line < 1023 → chunks [] (line ∷ []) ≡ line ∷ []
unfolding chunks
chunks-one line low high =
    let fits : is_full [] line ≡ false = ground arith in
    let some_left : (length line == 0) ≡ false = ground arith in rw (fits, some_left) refl

-- The socket once each chunk has gone out as one frame.
abbrev pub after_chunks : (ℕ → ℕ → Option ℕ) → ℕ → List Bytes → Socket → Socket
after_chunks send type [] k = k
after_chunks send type (c ∷ cs) k = after_chunks send type cs (after_frame send type c k)

abbrev pub put_socket : {P : Type 0} → ℕ → Server P → Socket → Server P
put_socket fd s k = record s { sockets = update s.sockets fd k }

-- The array holds `cur` with a NUL behind it, unless `cur` is empty.
pub record Holds (dest cur : Bytes) : Type 0 where
  pub tail : Bytes
  pub room : 1024 ≤ length dest
  pub contents : dest ≡ cur ++ tail
  pub ended : (cur ≡ []) ⊎ ((junk : Bytes) × (tail ≡ 0 ∷ junk))

split_at :
    (n : ℕ) (xs : Bytes)
    → n ≤ length xs
    → (a : Bytes) × (b : Bytes) × (xs ≡ a ++ b) × (length a ≡ n)
split_at zero xs h = ([], xs, refl, refl)
split_at (suc n) [] h = absurd (omega arith)
split_at (suc n) (x ∷ xs) h =
    let (a, b, e, l) = split_at n xs (omega arith) in
    (x ∷ a, b, ap (λ (r : Bytes). x ∷ r) e, ap suc l)

pub text-append : (d more : Bytes) → NulFree d → text (d ++ (0 ∷ more)) ≡ ok d
unfolding text
text-append d more free = rw (strlen-append d more free) (fetch-append d (0 ∷ more))

pub store-Holds :
    {dest cur : Bytes} (p : Bytes)
    → Holds dest cur
    → 0 < length p
    → length cur + length p + 1 < 1024
    → (dest' : Bytes) × (store dest (length cur) (p ++ (0 ∷ [])) ≡ ok dest')
      × Holds dest' (cur ++ p)
store-Holds {dest} {cur} p h some_text fits =
    let whole : length dest ≡ length cur + length h.tail =
      ap length h.contents ∙ length-append cur h.tail in
    let size : length (p ++ (0 ∷ [])) ≡ length p + 1 = length-append p (0 ∷ []) in
    let (a, b, e, l) = split_at (length p + 1) h.tail (omega (arith, h.room)) in
    let result : Bytes = cur ++ ((p ++ (0 ∷ [])) ++ b) in
    let shape : result ≡ (cur ++ p) ++ (0 ∷ b) =
      ap (λ (r : Bytes). cur ++ r) (append_assoc p (0 ∷ []) b) ∙ sym (append_assoc cur p (0 ∷ b)) in
    let old : length h.tail ≡ length a + length b = ap length e ∙ length-append a b in
    let new : length result ≡ length cur + (length p + 1 + length b) =
      length-append cur ((p ++ (0 ∷ [])) ++ b)
      ∙ omega (arith, length-append (p ++ (0 ∷ [])) b, size) in
    (
      result,
      rw (h.contents, e) (store-append cur a (p ++ (0 ∷ [])) b (size ∙ sym l)),
      record {
        tail = 0 ∷ b;
        room = omega (arith, h.room);
        contents = shape;
        ended = inr (b, refl);
      },
    )

pub put_twice :
    {P : Type 0} (fd : ℕ) (s : Server P) (k k' : Socket)
    → put_socket fd (put_socket fd s k) k' ≡ put_socket fd s k'
put_twice fd s k k' =
    let same : update (update s.sockets fd k) fd k' ≡ update s.sockets fd k' =
      fun_ext (λ a. ground arith) in
    ap (λ (m : ℕ → Socket). record s { sockets = m }) same

-- Texts that are put into the buffer one after another.
abbrev pub add_all :
    {P : Type 0}
    → System P
    → ℕ
    → ℕ
    → ℕ
    → List Bytes
    → Bytes × ℕ × Server P
    → Run (Bytes × ℕ × Server P)
add_all sys fuel fd type [] b = ok b
add_all sys fuel fd type (p ∷ ps) b = do
  b' ← add_text sys fuel fd p type b
  add_all sys fuel fd type ps b'

-- What can be put into the buffer: NUL-free text of 1 to 1022 characters.
abbrev pub IsEntry : Bytes → Type 0
IsEntry p = NulFree p × (0 < length p) × (length p < 1023)

-- What `encode` has room for.
abbrev pub IsSmall : Bytes → Type 0
IsSmall c = length c ≤ 1016
