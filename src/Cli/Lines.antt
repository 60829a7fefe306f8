-- ===== src/Cli/Lines.antt =====
-- `parse_cli` of client/src/cli_commands.c on a line of plain words.
use pyramid.Prelude.{
  ℕ, suc, ◌+◌, ◌-◌, ◌<◌, ◌≤◌, ◌≡◌, ◌≢◌, refl, sym, ap, ◌∙◌, List, [], ◌∷◌, ◌++◌, arith, length,
  length-append, All, All-append, append_assoc, append-nil, ℤ,
}
use pyramid.Wire.{ok, Bytes}
use pyramid.Wire.Laws.{NulFree, store-append, c_string-append}
use pyramid.Sending.{zeros}
use pyramid.Sending.Laws.{zeros-add, length-zeros, strlen-append}
use pyramid.Cli.{cli_parse_line, strcat, trim}
use pyramid.Cli.Words.{IsPlain, IsWord, line, rounds, cli_parse_line-line}
use pyramid.Cli.Requests.{command, parse_cli}

-- The words with a blank between them, and the words with a blank behind each.
abbrev pub spaced : Bytes → List Bytes → Bytes
spaced w [] = w
spaced w (v ∷ ws) = w ++ (32 ∷ spaced v ws)

abbrev pub trimmed : List Bytes → Bytes
trimmed [] = []
trimmed (w ∷ ws) = w ++ (32 ∷ trimmed ws)

line-spaced :
    (w : Bytes) (ws : List Bytes) (rest : Bytes) → line w ws rest ≡ spaced w ws ++ (0 ∷ rest)
line-spaced w [] rest = refl
line-spaced w (v ∷ ws) rest =
    ap (λ (l : Bytes). w ++ (32 ∷ l)) (line-spaced v ws rest)
    ∙ sym (append_assoc w (32 ∷ spaced v ws) (0 ∷ rest))

plain-NulFree : (w : Bytes) → All IsPlain w → NulFree w
plain-NulFree [] h = tt
plain-NulFree (c ∷ w) (h, hs) = (h.0, plain-NulFree w hs)

pub spaced-NulFree : (w : Bytes) (ws : List Bytes) → All IsWord (w ∷ ws) → NulFree (spaced w ws)
spaced-NulFree w [] ((low, h), hs) = plain-NulFree w h
spaced-NulFree w (v ∷ ws) ((low, h), hs) =
    All-append (λ b. b ≢ 0) w (32 ∷ spaced v ws) (plain-NulFree w h)
      (omega arith, spaced-NulFree v ws hs)

trimmed-NulFree : (ws : List Bytes) → All IsWord ws → NulFree (trimmed ws)
trimmed-NulFree [] h = tt
trimmed-NulFree (w ∷ ws) ((low, h), hs) =
    All-append (λ b. b ≢ 0) w (32 ∷ trimmed ws) (plain-NulFree w h)
      (omega arith, trimmed-NulFree ws hs)

zeros-suc : (k n : ℕ) → n ≡ suc k → 0 ∷ zeros k ≡ zeros n
unfolding zeros
zeros-suc k n e = sym (ap zeros e)

-- A string put behind one that stands in a zeroed block.
strcat-zeros :
    (p w : Bytes) (k : ℕ)
    → NulFree p
    → length w ≤ k
    → strcat (p ++ (0 ∷ zeros k)) w ≡ ok ((p ++ w) ++ (0 ∷ zeros (k - length w)))
unfolding strcat
strcat-zeros p w k free room =
    let back : ℕ = k - length w in
    let size : length (w ++ 0 ∷ []) ≡ length w + 1 = length-append w (0 ∷ []) in
    let cut : 0 ∷ zeros k ≡ zeros (length w + 1) ++ zeros back =
      zeros-suc k ((length w + 1) + back) (omega arith) ∙ zeros-add (length w + 1) back in
    rw (strlen-append p (zeros k) free, cut)
      (store-append p (zeros (length w + 1)) (w ++ 0 ∷ []) (zeros back)
          (size ∙ sym (length-zeros (length w + 1)))
        ∙ ap ok (
            ap (λ (l : Bytes). p ++ l) (append_assoc w (0 ∷ []) (zeros back))
            ∙ sym (append_assoc p w (0 ∷ zeros back))))

trim-nil : (dest : Bytes) → trim dest [] ≡ ok dest
unfolding trim
trim-nil dest = refl

trim-step :
    (p w : Bytes) (ws : List Bytes) (k : ℕ)
    → NulFree p
    → NulFree w
    → length w + 1 ≤ k
    → trim (p ++ (0 ∷ zeros k)) (w ∷ ws)
      ≡ trim ((p ++ (w ++ 32 ∷ [])) ++ (0 ∷ zeros (k - (length w + 1)))) ws
unfolding trim
trim-step p w ws k free word room =
    let less : k - length w - 1 ≡ k - (length w + 1) = omega arith in
    rw
      (
        strcat-zeros p w k free (omega arith),
        strcat-zeros (p ++ w) (32 ∷ []) (k - length w) (All-append (λ b. b ≢ 0) p w free word)
            (omega arith),
        append_assoc p w (32 ∷ []),
        less,
      )
      refl

trim-zeros :
    (ws : List Bytes) (p : Bytes) (k : ℕ)
    → NulFree p
    → All IsWord ws
    → length (trimmed ws) ≤ k
    → trim (p ++ (0 ∷ zeros k)) ws ≡ ok ((p ++ trimmed ws) ++ (0 ∷ zeros (k - length (trimmed ws))))
trim-zeros [] p k free h room =
    let all : k - 0 ≡ k = omega arith in rw (append-nil, all) (trim-nil (p ++ (0 ∷ zeros k)))
trim-zeros (w ∷ ws) p k free ((low, word), h) room =
    let size = length-append w (32 ∷ trimmed ws) in
    let v : Bytes = w ++ 32 ∷ [] in
    let j : ℕ = k - (length w + 1) in
    let v_free : NulFree v =
      All-append (λ b. b ≢ 0) w (32 ∷ []) (plain-NulFree w word) (omega arith, tt) in
    let left : j - length (trimmed ws) ≡ k - length (w ++ (32 ∷ trimmed ws)) =
      omega (arith, size) in
    trim-step p w ws k free (plain-NulFree w word) (omega (arith, size))
    ∙ (trim-zeros ws (p ++ v) j (All-append (λ b. b ≢ 0) p v free v_free) h (omega (arith, size))
        ∙ ap ok (
            ap (λ (l : Bytes). l ++ (0 ∷ zeros (j - length (trimmed ws))))
              (append_assoc p v (trimmed ws)
                ∙ ap (λ (l : Bytes). p ++ l) (append_assoc w (32 ∷ []) (trimmed ws)))
            ∙ ap (λ (i : ℕ). (p ++ (w ++ (32 ∷ trimmed ws))) ++ (0 ∷ zeros i)) left))

-- A line of at most seven plain words, with one blank between two of them, is turned into the
-- command for its words, where `malloc` gives a zeroed block with a byte more than is asked for:
-- the copy has a blank behind the last word too.
pub parse_cli-line :
    (number : Bytes → ℤ) (block : ℕ → Bytes) (fuel k : ℕ) (w : Bytes) (ws : List Bytes)
    (rest : Bytes)
    → All IsWord (w ∷ ws)
    → rounds w ws ≤ fuel
    → length ws < 7
    → block (length (spaced w ws) + 1) ≡ 0 ∷ zeros k
    → length (trimmed (w ∷ ws)) ≤ k
    → parse_cli number block fuel (spaced w ws ++ (0 ∷ rest))
      ≡ ok (command number (trimmed (w ∷ ws)) (w ∷ ws))
unfolding parse_cli
parse_cli-line number block fuel k w ws rest h enough few zeroed room =
    let words : List Bytes = w ∷ ws in
    let split : cli_parse_line fuel (spaced w ws ++ (0 ∷ rest)) 8 ≡ ok words =
      ap (λ (l : Bytes). cli_parse_line fuel l 8) (sym (line-spaced w ws rest))
      ∙ cli_parse_line-line w ws rest fuel 8 h enough (omega arith) in
    rw
      (
        strlen-append (spaced w ws) rest (spaced-NulFree w ws h),
        split,
        zeroed,
        trim-zeros words [] k tt h room,
        c_string-append (trimmed words) (zeros (k - length (trimmed words)))
            (trimmed-NulFree words h),
      )
      refl
