-- ===== src/Cli/Words.antt =====
-- `cli_parse_line` of client/src/cli_commands.c on a line of plain words.
use pyramid.Prelude.{
  ℕ, zero, suc, ◌+◌, ◌-◌, ◌<◌, ◌≤◌, ◌≡◌, ◌≢◌, refl, ap, ◌∙◌, true, false, ◌||◌, none, some, List,
  [], ◌∷◌, ◌++◌, arith, length, length-append, All, append_assoc, append-nil, ltb, ◌==◌,
}
use pyramid.Wire.{ok, Bytes}
use pyramid.Cli.{skip_blanks, parse_words, cli_parse_line, ends_word}

-- No NUL, blank, bar or quote.
abbrev pub IsPlain : ℕ → Type 0
IsPlain c = (c ≢ 0) × (c ≢ 32) × (c ≢ 124) × (c ≢ 34) × (c ≢ 39)

-- A word of one character or more.
abbrev pub IsWord : Bytes → Type 0
IsWord w = (0 < length w) × All IsPlain w

-- The words with a blank between them and a NUL behind them, and then `rest`.
abbrev pub line : Bytes → List Bytes → Bytes → Bytes
line w [] rest = w ++ (0 ∷ rest)
line w (v ∷ ws) rest = w ++ (32 ∷ line v ws rest)

-- The rounds of the loop: one for each character, two for each blank, and one for the NUL.
abbrev pub rounds : Bytes → List Bytes → ℕ
rounds w [] = length w + 1
rounds w (v ∷ ws) = length w + 2 + rounds v ws

plain_step :
    (f max c : ℕ) (p v : Bytes) (words : List Bytes)
    → length words < max - 1
    → IsPlain c
    → parse_words (suc f) max (c ∷ p) (some v) 0 words
      ≡ parse_words f max p (some (v ++ c ∷ [])) 0 words
unfolding parse_words
plain_step f max c p v words room (n0, n1, n2, n3, n4) =
    let more : ltb (length words) (max - 1) ≡ true = ground arith in
    let inside : ends_word c (some v) 0 ≡ false = ground arith in
    let unquoted : (c == 34 || c == 39) ≡ false = ground arith in rw (more, inside, unquoted) refl

first_step :
    (f max c : ℕ) (p : Bytes) (words : List Bytes)
    → length words < max - 1
    → IsPlain c
    → parse_words (suc f) max (c ∷ p) none 0 words ≡ parse_words f max p (some (c ∷ [])) 0 words
unfolding parse_words
first_step f max c p words room (n0, n1, n2, n3, n4) =
    let more : ltb (length words) (max - 1) ≡ true = ground arith in
    let outside : ends_word c none 0 ≡ false = ground arith in
    let unquoted : (c == 34 || c == 39) ≡ false = ground arith in
    let no_bar : (c == 124) ≡ false = ground arith in
    let no_blank : (c == 32) ≡ false = ground arith in
    rw (more, outside, unquoted, no_bar, no_blank) refl

blank_step :
    (f max : ℕ) (p v : Bytes) (words : List Bytes)
    → length words + 1 < max - 1
    → parse_words (suc (suc f)) max (32 ∷ p) (some v) 0 words
      ≡ parse_words f max p none 0 (words ++ v ∷ [])
unfolding parse_words
blank_step f max p v words room =
    let more : ltb (length words) (max - 1) ≡ true = ground arith in
    let again : ltb (length (words ++ v ∷ [])) (max - 1) ≡ true =
      ground (arith, length-append words (v ∷ [])) in
    rw (more, again) refl

end_step :
    (f max : ℕ) (rest v : Bytes) (words : List Bytes)
    → length words < max - 1
    → parse_words (suc f) max (0 ∷ rest) (some v) 0 words ≡ ok (words ++ v ∷ [])
unfolding parse_words
end_step f max rest v words room =
    let more : ltb (length words) (max - 1) ≡ true = ground arith in rw more refl

parse_words-append :
    (w : Bytes) (k f max : ℕ) (p v : Bytes) (words : List Bytes)
    → k ≡ length w + f
    → length words < max - 1
    → All IsPlain w
    → parse_words k max (w ++ p) (some v) 0 words ≡ parse_words f max p (some (v ++ w)) 0 words
parse_words-append [] k f max p v words e room h =
    let same : k ≡ f = omega arith in rw (same, append-nil v) refl
parse_words-append (c ∷ w) zero f max p v words e room h = absurd (omega arith)
parse_words-append (c ∷ w) (suc k) f max p v words e room (h, hs) =
    plain_step k max c (w ++ p) v words room h
    ∙ (parse_words-append w k f max p (v ++ c ∷ []) words (omega arith) room hs
        ∙ ap (λ (u : Bytes). parse_words f max p (some u) 0 words) (append_assoc v (c ∷ []) w))

line-cons :
    (c : ℕ) (w : Bytes) (ws : List Bytes) (rest : Bytes) → line (c ∷ w) ws rest ≡ c ∷ line w ws rest
line-cons c w [] rest = refl
line-cons c w (v ∷ ws) rest = refl

rounds-cons : (c : ℕ) (w : Bytes) (ws : List Bytes) → rounds (c ∷ w) ws ≡ rounds w ws + 1
rounds-cons c w [] = omega arith
rounds-cons c w (v ∷ ws) = omega arith

-- From the second character of the word `v ++ w` on.
parse_words-line :
    (v w : Bytes) (ws : List Bytes) (rest : Bytes) (k max : ℕ) (words : List Bytes)
    → rounds w ws ≤ k
    → length words + 1 + length ws ≤ max - 1
    → All IsPlain w
    → All IsWord ws
    → parse_words k max (line w ws rest) (some v) 0 words ≡ ok (words ++ (v ++ w) ∷ ws)
parse_words-line v w [] rest k max words fuel room h hs =
    parse_words-append w k (suc (k - length w - 1)) max (0 ∷ rest) v words (omega arith)
      (omega arith) h
    ∙ end_step (k - length w - 1) max rest (v ++ w) words (omega arith)
parse_words-line v w ([] ∷ ws) rest k max words fuel room h ((low, _), _) = absurd (omega arith)
parse_words-line v w ((c ∷ u) ∷ ws) rest k max words fuel room h ((low, (hc, hu)), hs) =
    let f : ℕ = k - length w - 3 in
    let read : List Bytes = words ++ (v ++ w) ∷ [] in
    let size : length read ≡ length words + 1 = length-append words ((v ++ w) ∷ []) in
    let more : rounds (c ∷ u) ws ≡ rounds u ws + 1 = rounds-cons c u ws in
    parse_words-append w k (suc (suc (suc f))) max (32 ∷ line (c ∷ u) ws rest) v words (omega arith)
      (omega arith) h
    ∙ (blank_step (suc f) max (line (c ∷ u) ws rest) (v ++ w) words (omega arith)
        ∙ (ap (λ (q : Bytes). parse_words (suc f) max q none 0 read) (line-cons c u ws rest)
            ∙ (first_step f max c (line u ws rest) read (omega arith) hc
                ∙ (parse_words-line (c ∷ []) u ws rest f max read (omega arith) (omega arith) hu hs
                    ∙ ap ok (append_assoc words ((v ++ w) ∷ []) ((c ∷ u) ∷ ws))))))

-- A line of plain words with one blank between two of them is split into exactly these words, given
-- room for one word more and the rounds that the loop needs.
pub cli_parse_line-line :
    (w : Bytes) (ws : List Bytes) (rest : Bytes) (k max : ℕ)
    → All IsWord (w ∷ ws)
    → rounds w ws ≤ k
    → length ws + 1 < max
    → cli_parse_line k (line w ws rest) max ≡ ok (w ∷ ws)
unfolding cli_parse_line skip_blanks
cli_parse_line-line [] ws rest k max ((low, _), _) fuel room = absurd (omega arith)
cli_parse_line-line (c ∷ w) ws rest k max ((low, (hc, hw)), hs) fuel room =
    let no_blank : (c == 32) ≡ false = ground arith in
    let no_end : (c == 0) ≡ false = ground arith in
    rw (line-cons c w ws rest, no_blank, no_end, ← line-cons c w ws rest)
      (parse_words-line [] (c ∷ w) ws rest k max [] fuel (omega arith) (hc, hw) hs)
