-- ===== src/Tlv/Attribute.antt =====
-- The numbers of `enum Attribute` in common/src/tlv.h that the code uses.
use pyramid.Prelude.{ℕ}

abbrev pub join_group : ℕ
join_group = 1

abbrev pub good_bye : ℕ
good_bye = 2

abbrev pub string_data : ℕ
string_data = 3

abbrev pub cli_data : ℕ
cli_data = 5

abbrev pub algo_error : ℕ
algo_error = 100

abbrev pub algo_sort : ℕ
algo_sort = 101

abbrev pub algo_max : ℕ
algo_max = 102
