-- ===== src/Worker/Names.antt =====
-- The file names of client/src/client.c: the last part of a path, and the names made from it.
use pyramid.Prelude.{
  ℕ, zero, suc, ◌+◌, ◌<◌, ◌≤◌, ◌≡◌, ◌≢◌, ◌⊎◌, refl, sym, ap, ◌∙◌, true, Option, none, some, [], ◌∷◌,
  ◌++◌, arith, length, take, take-of_le, ◌==◌, Bool-cases, inl, inr,
}
use pyramid.Wire.{Run, ok, ◌>>=◌, Bytes}
use pyramid.Strtok.{strtok_r, before_delim, behind_delim}
use pyramid.Strtok.Words.{IsWord, strtok_r-last, strtok_r-word, strtok_r-delim}
use pyramid.Worker.{
  last_token, get_filename_from_path, client_generate_in_out_filenames_from_path, output_prefix,
}

-- Behind the first slash there is the name alone, or a shorter path to it.
behind_slash :
    (x name : Bytes)
    → (behind_delim 47 (x ++ (47 ∷ name)) ≡ name)
      ⊎ ((v : Bytes) × (behind_delim 47 (x ++ (47 ∷ name)) ≡ v ++ (47 ∷ name))
          × (length v < length x))
unfolding behind_delim
behind_slash [] name = inl refl
behind_slash (c ∷ x) name = elim (Bool-cases (c == 47)) [
  | inl e ↦ rw e (inr (x, refl, omega arith))
  | inr e ↦ rw e (elim (behind_slash x name) [
    | inl alone ↦ inl alone
    | inr (v, path, less) ↦ inr (v, path, omega arith)
  ])
]

last_token-nil : (f : ℕ) (filename : Bytes) → last_token (suc f) filename [] ≡ ok filename
unfolding last_token
last_token-nil f filename = refl

last_token-some :
    (f : ℕ) (filename save token rest : Bytes)
    → strtok_r 47 save ≡ some (token, rest)
    → last_token (suc f) filename save ≡ last_token f token rest
unfolding last_token
last_token-some f filename save token rest e =
    ap
      (λ (r : Option (Bytes × Bytes)). elim r [
        | none ↦ ok filename
        | some t ↦ last_token f t.0 t.1
      ])
      e

last_token-slash :
    (f : ℕ) (filename save : Bytes)
    → last_token (suc f) filename (47 ∷ save) ≡ last_token (suc f) filename save
unfolding last_token
last_token-slash f filename save = rw (strtok_r-delim 47 save) refl

-- A file's name: not empty, without a slash.
abbrev pub IsName : Bytes → Type 0
IsName name = IsWord 47 name × (0 < length name)

last_token-name :
    (f : ℕ) (filename name : Bytes) → IsName name → last_token (suc (suc f)) filename name ≡ ok name
last_token-name f filename name (word, low) =
    last_token-some (suc f) filename name name [] (strtok_r-last 47 name word low)
    ∙ last_token-nil f name

last_token-path :
    (n f : ℕ) (x filename name : Bytes)
    → IsName name
    → length x ≤ n
    → n < f
    → last_token (suc f) filename (x ++ (47 ∷ name)) ≡ ok name
last_token-path n zero x filename name is short enough = absurd (omega arith)
last_token-path n (suc f) [] filename name is short enough =
    last_token-slash (suc f) filename name ∙ last_token-name f filename name is
last_token-path zero (suc f) (c ∷ x) filename name is short enough = absurd (omega arith)
last_token-path (suc n) (suc f) (c ∷ x) filename name is short enough =
    elim (Bool-cases (c == 47)) [
      | inl e ↦
          let slash : c ≡ 47 = ground arith in
          rw slash (
            last_token-slash (suc f) filename (x ++ (47 ∷ name))
            ∙ last_token-path n (suc f) x filename name is (omega arith) (omega arith))
      | inr e ↦
          let ne : c ≢ 47 = ground arith in
          let token = before_delim 47 (c ∷ (x ++ (47 ∷ name))) in
          let first = strtok_r-word 47 c (x ++ (47 ∷ name)) ne in
          last_token-some (suc f) filename (c ∷ (x ++ (47 ∷ name))) token
            (behind_delim 47 (c ∷ (x ++ (47 ∷ name)))) first
          ∙ elim (behind_slash (c ∷ x) name) [
            | inl alone ↦ rw alone (last_token-name_short n f token name is (omega arith))
            | inr (v, path, less) ↦
                rw path (last_token-path n f v token name is (omega arith) (omega arith))
          ]
    ]
  where
    last_token-name_short :
        (n f : ℕ) (filename name : Bytes)
        → IsName name
        → n < f
        → last_token (suc f) filename name ≡ ok name
    last_token-name_short n zero filename name is h = absurd (omega arith)
    last_token-name_short n (suc f) filename name is h = last_token-name f filename name is

ok_injective : {a b : Bytes} → ◌≡◌ {A = Run Bytes} (ok a) (ok b) → a ≡ b
ok_injective e = cc

last_token-none :
    (f : ℕ) (filename save : Bytes)
    → strtok_r 47 save ≡ none
    → last_token (suc f) filename save ≡ ok filename
unfolding last_token
last_token-none f filename save e =
    ap
      (λ (r : Option (Bytes × Bytes)). elim r [
        | none ↦ ok filename
        | some t ↦ last_token f t.0 t.1
      ])
      e

get_filename_from_path-some :
    (f : ℕ) (path token rest : Bytes)
    → strtok_r 47 path ≡ some (token, rest)
    → get_filename_from_path f path ≡ (last_token f token rest >>= λ name. ok (some name))
unfolding get_filename_from_path
get_filename_from_path-some f path token rest e =
    ap
      (λ (r : Option (Bytes × Bytes)). elim r [
        | none ↦ ok none
        | some t ↦ (do name ← last_token f t.0 t.1; ok (some name))
      ])
      e

-- The loop finds what stands behind the last slash, where it is let go round as often as the path
-- has characters.
pub get_filename_from_path-name :
    (f : ℕ) (dir name : Bytes)
    → IsName name
    → length dir < f
    → get_filename_from_path f (dir ++ (47 ∷ name)) ≡ ok (some name)
get_filename_from_path-name f dir name is enough = found (strtok_r 47 (dir ++ (47 ∷ name))) refl
  where
    last : last_token (suc f) [] (dir ++ (47 ∷ name)) ≡ ok name
    last = last_token-path (length dir) f dir [] name is (omega arith) enough

    found :
        (r : Option (Bytes × Bytes))
        → strtok_r 47 (dir ++ (47 ∷ name)) ≡ r
        → get_filename_from_path f (dir ++ (47 ∷ name)) ≡ ok (some name)
    found none e =
        let nil : [] ≡ name =
          ok_injective (sym (last_token-none f [] (dir ++ (47 ∷ name)) e) ∙ last) in
        absurd (omega (arith, is.1, ap length nil))
    found (some (token, rest)) e =
        let whole : last_token f token rest ≡ ok name =
          sym (last_token-some f [] (dir ++ (47 ∷ name)) token rest e) ∙ last in
        get_filename_from_path-some f (dir ++ (47 ∷ name)) token rest e
        ∙ ap (λ (m : Run Bytes). m >>= λ n. ok (some n)) whole

-- For a path that ends in a slash and a name of 1 to 99 characters, the name of the input is this
-- name, and that of the output has a prefix; it is cut to 99 characters, and the result is still
-- TRUE. There are more rounds than characters before the last slash.
pub client_generate_in_out_filenames_from_path-name :
    (f : ℕ) (dir name : Bytes)
    → IsName name
    → length dir < f
    → length name < 100
    → client_generate_in_out_filenames_from_path f 100 (dir ++ (47 ∷ name))
      ≡ ok (some (name, take 99 (output_prefix ++ name)))
unfolding client_generate_in_out_filenames_from_path
client_generate_in_out_filenames_from_path-name f dir name is enough short =
    let whole : take 100 name ≡ name = take-of_le 100 name (omega arith) in
    let whole' : take 99 name ≡ name = take-of_le 99 name (omega arith) in
    let one : (length name == length name + 0) ≡ true = ground arith in
    let two : (length (output_prefix ++ name) == length name + 7) ≡ true = ground arith in
    rw (get_filename_from_path-name f dir name is enough, whole, one, two, whole') refl
