-- ===== src/Jpu/Huffman.antt =====
-- src/shjpeg_jpu.c: what the JPU reads from the table registers of an encoder.
use libshjpeg.Base.{
  ℕ, zero, suc, ◌+◌, ◌*◌, ◌/◌, ◌%◌, ◌^◌, ◌≡◌, refl, ltb, ◌==◌, Bool, true, false, not, ◌&&◌, ◌||◌,
  List, [], ◌∷◌,
}
use libshjpeg.Regs.{jcqtbl0, jcqtbl1, jchtbd0, jchtbd1, jchtba0, jchtba1}
use libshjpeg.Jpu.State.{Machine}
use libshjpeg.Jpu.Total.{length}
use libshjpeg.Jpu.Tables.{shjpeg_jpu_init_quantization_table, shjpeg_jpu_init_huffman_table}

-- `count` registers of a table, from the n-th on.
abbrev pub read_table : (ℕ → ℕ) → ℕ → ℕ → Machine → List ℕ
read_table address n zero m = []
read_table address n (suc count) m = m.regs (address n) ∷ read_table address (n + 1) count m

-- The bytes of the words, highest first.
abbrev bytes : List ℕ → List ℕ
bytes [] = []
bytes (w ∷ ws) = w / 2 ^ 24 ∷ w / 2 ^ 16 % 256 ∷ w / 2 ^ 8 % 256 ∷ w % 256 ∷ bytes ws

abbrev take : ℕ → List ℕ → List ℕ
take zero xs = []
take (suc n) [] = []
take (suc n) (x ∷ xs) = x ∷ take n xs

abbrev drop : ℕ → List ℕ → List ℕ
drop zero xs = xs
drop (suc n) [] = []
drop (suc n) (x ∷ xs) = drop n xs

abbrev sum : List ℕ → ℕ
sum [] = 0
sum (x ∷ xs) = x + sum xs

-- The share of the code space that codes of lengths `16 - left + 1` and on take, in units of 2 ^
-- -16.
abbrev code_space : ℕ → List ℕ → ℕ
code_space left [] = 0
code_space zero (c ∷ cs) = 0
code_space (suc left) (c ∷ cs) = c * 2 ^ left + code_space left cs

abbrev all_positive : List ℕ → Bool
all_positive [] = true
all_positive (x ∷ xs) = not (x == 0) && all_positive xs

abbrev occurs : ℕ → List ℕ → Bool
occurs x [] = false
occurs x (y ∷ ys) = x == y || occurs x ys

abbrev distinct : List ℕ → Bool
distinct [] = true
distinct (x ∷ xs) = not (occurs x xs) && distinct xs

-- A Huffman table of JPEG: 16 numbers of codes by length, for `symbols` different symbols in all,
-- that fit a prefix code with the code of all ones left free.
pub record IsHuffman (symbols : ℕ) (words : List ℕ) : Type 0 where
  pub counted : sum (take 16 (bytes words)) ≡ symbols
  pub prefix_free : ltb (code_space 16 (take 16 (bytes words))) (2 ^ 16) ≡ true
  pub all_given : length (take symbols (drop 16 (bytes words))) ≡ symbols
  pub different : distinct (take symbols (drop 16 (bytes words))) ≡ true

-- A quantisation table of JPEG: 64 divisors, none of them zero.
pub record IsQuantization (words : List ℕ) : Type 0 where
  pub counted : length (bytes words) ≡ 64
  pub positive : all_positive (bytes words) ≡ true

abbrev pub with_tables : Machine → Machine
with_tables m = shjpeg_jpu_init_huffman_table (shjpeg_jpu_init_quantization_table m)

-- Whatever the registers held before, after both initialisations the JPU reads from them two
-- quantisation tables without a zero, and four Huffman tables, each a prefix code for its 12 DC or
-- 162 AC symbols, with no symbol twice and the code of all ones free.
pub with_tables-IsHuffman :
    (m : Machine)
    → IsQuantization (read_table jcqtbl0 0 16 (with_tables m))
      × IsQuantization (read_table jcqtbl1 0 16 (with_tables m))
      × IsHuffman 12 (read_table jchtbd0 0 7 (with_tables m))
      × IsHuffman 12 (read_table jchtbd1 0 7 (with_tables m))
      × IsHuffman 162 (read_table jchtba0 0 45 (with_tables m))
      × IsHuffman 162 (read_table jchtba1 0 45 (with_tables m))
unfolding shjpeg_jpu_init_quantization_table shjpeg_jpu_init_huffman_table
with_tables-IsHuffman m = (
  record { counted = refl; positive = refl },
  record { counted = refl; positive = refl },
  record { counted = refl; prefix_free = refl; all_given = refl; different = refl },
  record { counted = refl; prefix_free = refl; all_given = refl; different = refl },
  record { counted = refl; prefix_free = refl; all_given = refl; different = refl },
  record { counted = refl; prefix_free = refl; all_given = refl; different = refl },
)
