-- ===== src/Util/BitCount/Tables.antt =====
-- The tables of src/univix_util.cpp that BIT_COUNT and BIT_COUNT2 read.
use index_research.Prelude.{ℕ, List, [], ◌∷◌}

-- `bit_count` of src/univix_util.cpp.
abbrev pub bit_count : List ℕ
bit_count =
    0 ∷ 1 ∷ 1 ∷ 2 ∷ 1 ∷ 2 ∷ 2 ∷ 3 ∷ 1 ∷ 2 ∷ 2 ∷ 3 ∷ 2 ∷ 3 ∷ 3 ∷ 4 ∷ 1 ∷ 2 ∷ 2 ∷ 3 ∷ 2 ∷ 3 ∷ 3 ∷ 4
    ∷ 2 ∷ 3 ∷ 3 ∷ 4 ∷ 3 ∷ 4 ∷ 4 ∷ 5 ∷ 1 ∷ 2 ∷ 2 ∷ 3 ∷ 2 ∷ 3 ∷ 3 ∷ 4 ∷ 2 ∷ 3 ∷ 3 ∷ 4 ∷ 3 ∷ 4 ∷ 4 ∷ 5
    ∷ 2 ∷ 3 ∷ 3 ∷ 4 ∷ 3 ∷ 4 ∷ 4 ∷ 5 ∷ 3 ∷ 4 ∷ 4 ∷ 5 ∷ 4 ∷ 5 ∷ 5 ∷ 6 ∷ 1 ∷ 2 ∷ 2 ∷ 3 ∷ 2 ∷ 3 ∷ 3 ∷ 4
    ∷ 2 ∷ 3 ∷ 3 ∷ 4 ∷ 3 ∷ 4 ∷ 4 ∷ 5 ∷ 2 ∷ 3 ∷ 3 ∷ 4 ∷ 3 ∷ 4 ∷ 4 ∷ 5 ∷ 3 ∷ 4 ∷ 4 ∷ 5 ∷ 4 ∷ 5 ∷ 5 ∷ 6
    ∷ 2 ∷ 3 ∷ 3 ∷ 4 ∷ 3 ∷ 4 ∷ 4 ∷ 5 ∷ 3 ∷ 4 ∷ 4 ∷ 5 ∷ 4 ∷ 5 ∷ 5 ∷ 6 ∷ 3 ∷ 4 ∷ 4 ∷ 5 ∷ 4 ∷ 5 ∷ 5 ∷ 6
    ∷ 4 ∷ 5 ∷ 5 ∷ 6 ∷ 5 ∷ 6 ∷ 6 ∷ 7 ∷ 1 ∷ 2 ∷ 2 ∷ 3 ∷ 2 ∷ 3 ∷ 3 ∷ 4 ∷ 2 ∷ 3 ∷ 3 ∷ 4 ∷ 3 ∷ 4 ∷ 4 ∷ 5
    ∷ 2 ∷ 3 ∷ 3 ∷ 4 ∷ 3 ∷ 4 ∷ 4 ∷ 5 ∷ 3 ∷ 4 ∷ 4 ∷ 5 ∷ 4 ∷ 5 ∷ 5 ∷ 6 ∷ 2 ∷ 3 ∷ 3 ∷ 4 ∷ 3 ∷ 4 ∷ 4 ∷ 5
    ∷ 3 ∷ 4 ∷ 4 ∷ 5 ∷ 4 ∷ 5 ∷ 5 ∷ 6 ∷ 3 ∷ 4 ∷ 4 ∷ 5 ∷ 4 ∷ 5 ∷ 5 ∷ 6 ∷ 4 ∷ 5 ∷ 5 ∷ 6 ∷ 5 ∷ 6 ∷ 6 ∷ 7
    ∷ 2 ∷ 3 ∷ 3 ∷ 4 ∷ 3 ∷ 4 ∷ 4 ∷ 5 ∷ 3 ∷ 4 ∷ 4 ∷ 5 ∷ 4 ∷ 5 ∷ 5 ∷ 6 ∷ 3 ∷ 4 ∷ 4 ∷ 5 ∷ 4 ∷ 5 ∷ 5 ∷ 6
    ∷ 4 ∷ 5 ∷ 5 ∷ 6 ∷ 5 ∷ 6 ∷ 6 ∷ 7 ∷ 3 ∷ 4 ∷ 4 ∷ 5 ∷ 4 ∷ 5 ∷ 5 ∷ 6 ∷ 4 ∷ 5 ∷ 5 ∷ 6 ∷ 5 ∷ 6 ∷ 6 ∷ 7
    ∷ 4 ∷ 5 ∷ 5 ∷ 6 ∷ 5 ∷ 6 ∷ 6 ∷ 7 ∷ 5 ∷ 6 ∷ 6 ∷ 7 ∷ 6 ∷ 7 ∷ 7 ∷ 8 ∷ []

-- `bit_count2x` of src/univix_util.cpp.
abbrev pub bit_count2x : List ℕ
bit_count2x =
    0 ∷ 2 ∷ 2 ∷ 4 ∷ 2 ∷ 4 ∷ 4 ∷ 6 ∷ 2 ∷ 4 ∷ 4 ∷ 6 ∷ 4 ∷ 6 ∷ 6 ∷ 8 ∷ 2 ∷ 4 ∷ 4 ∷ 6 ∷ 4 ∷ 6 ∷ 6 ∷ 8
    ∷ 4 ∷ 6 ∷ 6 ∷ 8 ∷ 6 ∷ 8 ∷ 8 ∷ 10 ∷ 2 ∷ 4 ∷ 4 ∷ 6 ∷ 4 ∷ 6 ∷ 6 ∷ 8 ∷ 4 ∷ 6 ∷ 6 ∷ 8 ∷ 6 ∷ 8 ∷ 8
    ∷ 10 ∷ 4 ∷ 6 ∷ 6 ∷ 8 ∷ 6 ∷ 8 ∷ 8 ∷ 10 ∷ 6 ∷ 8 ∷ 8 ∷ 10 ∷ 8 ∷ 10 ∷ 10 ∷ 12 ∷ 2 ∷ 4 ∷ 4 ∷ 6 ∷ 4
    ∷ 6 ∷ 6 ∷ 8 ∷ 4 ∷ 6 ∷ 6 ∷ 8 ∷ 6 ∷ 8 ∷ 8 ∷ 10 ∷ 4 ∷ 6 ∷ 6 ∷ 8 ∷ 6 ∷ 8 ∷ 8 ∷ 10 ∷ 6 ∷ 8 ∷ 8 ∷ 10
    ∷ 8 ∷ 10 ∷ 10 ∷ 12 ∷ 4 ∷ 6 ∷ 6 ∷ 8 ∷ 6 ∷ 8 ∷ 8 ∷ 10 ∷ 6 ∷ 8 ∷ 8 ∷ 10 ∷ 8 ∷ 10 ∷ 10 ∷ 12 ∷ 6 ∷ 8
    ∷ 8 ∷ 10 ∷ 8 ∷ 10 ∷ 10 ∷ 12 ∷ 8 ∷ 10 ∷ 10 ∷ 12 ∷ 10 ∷ 12 ∷ 12 ∷ 14 ∷ 2 ∷ 4 ∷ 4 ∷ 6 ∷ 4 ∷ 6 ∷ 6
    ∷ 8 ∷ 4 ∷ 6 ∷ 6 ∷ 8 ∷ 6 ∷ 8 ∷ 8 ∷ 10 ∷ 4 ∷ 6 ∷ 6 ∷ 8 ∷ 6 ∷ 8 ∷ 8 ∷ 10 ∷ 6 ∷ 8 ∷ 8 ∷ 10 ∷ 8 ∷ 10
    ∷ 10 ∷ 12 ∷ 4 ∷ 6 ∷ 6 ∷ 8 ∷ 6 ∷ 8 ∷ 8 ∷ 10 ∷ 6 ∷ 8 ∷ 8 ∷ 10 ∷ 8 ∷ 10 ∷ 10 ∷ 12 ∷ 6 ∷ 8 ∷ 8 ∷ 10
    ∷ 8 ∷ 10 ∷ 10 ∷ 12 ∷ 8 ∷ 10 ∷ 10 ∷ 12 ∷ 10 ∷ 12 ∷ 12 ∷ 14 ∷ 4 ∷ 6 ∷ 6 ∷ 8 ∷ 6 ∷ 8 ∷ 8 ∷ 10 ∷ 6
    ∷ 8 ∷ 8 ∷ 10 ∷ 8 ∷ 10 ∷ 10 ∷ 12 ∷ 6 ∷ 8 ∷ 8 ∷ 10 ∷ 8 ∷ 10 ∷ 10 ∷ 12 ∷ 8 ∷ 10 ∷ 10 ∷ 12 ∷ 10 ∷ 12
    ∷ 12 ∷ 14 ∷ 6 ∷ 8 ∷ 8 ∷ 10 ∷ 8 ∷ 10 ∷ 10 ∷ 12 ∷ 8 ∷ 10 ∷ 10 ∷ 12 ∷ 10 ∷ 12 ∷ 12 ∷ 14 ∷ 8 ∷ 10
    ∷ 10 ∷ 12 ∷ 10 ∷ 12 ∷ 12 ∷ 14 ∷ 10 ∷ 12 ∷ 12 ∷ 14 ∷ 12 ∷ 14 ∷ 14 ∷ 16 ∷ []

-- `bit_count_lf_ch` of src/univix_util.cpp.
abbrev pub bit_count_lf_ch : List ℕ
bit_count_lf_ch =
    0 ∷ 2 ∷ 1 ∷ 3 ∷ 2 ∷ 4 ∷ 3 ∷ 5 ∷ 1 ∷ 3 ∷ 2 ∷ 4 ∷ 3 ∷ 5 ∷ 4 ∷ 6 ∷ 2 ∷ 4 ∷ 3 ∷ 5 ∷ 4 ∷ 6 ∷ 5 ∷ 7
    ∷ 3 ∷ 5 ∷ 4 ∷ 6 ∷ 5 ∷ 7 ∷ 6 ∷ 8 ∷ 1 ∷ 3 ∷ 2 ∷ 4 ∷ 3 ∷ 5 ∷ 4 ∷ 6 ∷ 2 ∷ 4 ∷ 3 ∷ 5 ∷ 4 ∷ 6 ∷ 5 ∷ 7
    ∷ 3 ∷ 5 ∷ 4 ∷ 6 ∷ 5 ∷ 7 ∷ 6 ∷ 8 ∷ 4 ∷ 6 ∷ 5 ∷ 7 ∷ 6 ∷ 8 ∷ 7 ∷ 9 ∷ 2 ∷ 4 ∷ 3 ∷ 5 ∷ 4 ∷ 6 ∷ 5 ∷ 7
    ∷ 3 ∷ 5 ∷ 4 ∷ 6 ∷ 5 ∷ 7 ∷ 6 ∷ 8 ∷ 4 ∷ 6 ∷ 5 ∷ 7 ∷ 6 ∷ 8 ∷ 7 ∷ 9 ∷ 5 ∷ 7 ∷ 6 ∷ 8 ∷ 7 ∷ 9 ∷ 8 ∷ 10
    ∷ 3 ∷ 5 ∷ 4 ∷ 6 ∷ 5 ∷ 7 ∷ 6 ∷ 8 ∷ 4 ∷ 6 ∷ 5 ∷ 7 ∷ 6 ∷ 8 ∷ 7 ∷ 9 ∷ 5 ∷ 7 ∷ 6 ∷ 8 ∷ 7 ∷ 9 ∷ 8 ∷ 10
    ∷ 6 ∷ 8 ∷ 7 ∷ 9 ∷ 8 ∷ 10 ∷ 9 ∷ 11 ∷ 1 ∷ 3 ∷ 2 ∷ 4 ∷ 3 ∷ 5 ∷ 4 ∷ 6 ∷ 2 ∷ 4 ∷ 3 ∷ 5 ∷ 4 ∷ 6 ∷ 5
    ∷ 7 ∷ 3 ∷ 5 ∷ 4 ∷ 6 ∷ 5 ∷ 7 ∷ 6 ∷ 8 ∷ 4 ∷ 6 ∷ 5 ∷ 7 ∷ 6 ∷ 8 ∷ 7 ∷ 9 ∷ 2 ∷ 4 ∷ 3 ∷ 5 ∷ 4 ∷ 6 ∷ 5
    ∷ 7 ∷ 3 ∷ 5 ∷ 4 ∷ 6 ∷ 5 ∷ 7 ∷ 6 ∷ 8 ∷ 4 ∷ 6 ∷ 5 ∷ 7 ∷ 6 ∷ 8 ∷ 7 ∷ 9 ∷ 5 ∷ 7 ∷ 6 ∷ 8 ∷ 7 ∷ 9 ∷ 8
    ∷ 10 ∷ 3 ∷ 5 ∷ 4 ∷ 6 ∷ 5 ∷ 7 ∷ 6 ∷ 8 ∷ 4 ∷ 6 ∷ 5 ∷ 7 ∷ 6 ∷ 8 ∷ 7 ∷ 9 ∷ 5 ∷ 7 ∷ 6 ∷ 8 ∷ 7 ∷ 9 ∷ 8
    ∷ 10 ∷ 6 ∷ 8 ∷ 7 ∷ 9 ∷ 8 ∷ 10 ∷ 9 ∷ 11 ∷ 4 ∷ 6 ∷ 5 ∷ 7 ∷ 6 ∷ 8 ∷ 7 ∷ 9 ∷ 5 ∷ 7 ∷ 6 ∷ 8 ∷ 7 ∷ 9
    ∷ 8 ∷ 10 ∷ 6 ∷ 8 ∷ 7 ∷ 9 ∷ 8 ∷ 10 ∷ 9 ∷ 11 ∷ 7 ∷ 9 ∷ 8 ∷ 10 ∷ 9 ∷ 11 ∷ 10 ∷ 12 ∷ []
