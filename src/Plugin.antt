-- ===== src/Plugin.antt =====
-- dynamic/src/api.h and dynamic/src/api.c: the plug-in that finds the largest number of a file. A
-- file that can be opened is the list of what `fgets` reads from it, and `strtoumax` is a
-- parameter that is `none` where `errno` is ERANGE. The vector holds `int`s, to which it is cut.
pub mod Largest
use pyramid.Prelude.{
  ℕ, suc, ◌+◌, Bool, true, false, Option, none, some, List, [], ◌∷◌, ltb, if◌then◌else◌, length,
  ltb_ℤ, ℤ, pos, as_int,
}
use pyramid.Wire.{Bytes}

pub data ApiStatus : Type 0 where
  api_success : ApiStatus
  api_invalid_input : ApiStatus
  api_invalid_id : ApiStatus

-- What `fopen` gives for the input: `none` for NULL.
pub lines_input_file : Option (List Bytes) → ℕ
lines_input_file none = 0
lines_input_file (some lines) = length lines

-- `if (max < vec.vector[i]) max = vec.vector[i];` for each further number.
pub largest : ℤ → List ℤ → ℤ
largest max [] = max
largest max (v ∷ vs) = largest (if ltb_ℤ max v then v else max) vs

-- One number more, unless a line was refused.
abbrev pub push : Option ℤ → Option (List ℤ) → Option (List ℤ)
push none rest = none
push (some num) none = none
push (some num) (some rest) = some (num ∷ rest)

-- `num = strtoumax(line, NULL, 10);` for an `int`.
abbrev pub to_num : Option ℕ → Option ℤ
to_num none = none
to_num (some n) = some (as_int (pos n))

module _ (strtoumax : Bytes → Option ℕ) where
  pub read_lines : List Bytes → Option (List ℤ)
  unfolding as_int
  read_lines [] = some []
  read_lines (line ∷ lines) = push (to_num (strtoumax line)) (read_lines lines)

  -- The numbers, or `none` where the status is API_INVALID_INPUT.
  pub read_input_file : Option (List Bytes) → Option (List ℤ)
  unfolding read_lines
  read_input_file none = none
  read_input_file (some lines) = read_lines lines

  -- The number is written where `writable` says that the output can be opened.
  pub find_result : Bool → Option (List ℤ) → ApiStatus × Option ℤ
  unfolding largest
  find_result writable none = (api_invalid_input, none)
  find_result writable (some []) = (api_invalid_input, none)
  find_result writable (some (v ∷ vs)) =
      if writable then (api_success, some (largest v vs)) else (api_invalid_input, none)

  pub find_max : Bool → Option (List Bytes) → ApiStatus × Option ℤ
  unfolding find_result read_input_file
  find_max writable input = find_result writable (read_input_file input)

  unfoldable pub main_api : Bool → Option (List Bytes) → ℕ → ApiStatus × Option ℤ
  unfolding find_max
  main_api writable input id = if ltb id 1 then find_max writable input else (api_invalid_id, none)
