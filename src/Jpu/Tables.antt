-- ===== src/Jpu/Tables.antt =====
-- src/shjpeg_jpu.c: the quantisation and Huffman tables of the encoder, word by word.
use libshjpeg.Base.{ℕ, List, [], ◌∷◌, ◌+◌}
use libshjpeg.Regs.{jcqtbl0, jcqtbl1, jchtbd0, jchtbd1, jchtba0, jchtba1}
use libshjpeg.Jpu.State.{Machine, jpu_setreg32}

-- The words of one table, from its first register on.
abbrev pub jcqtbl0_words : List ℕ
jcqtbl0_words =
    0x100B0B0E ∷ 0x0C0A100E ∷ 0x0D0E1211 ∷ 0x10131828 ∷ 0x1A181616 ∷ 0x18312325 ∷ 0x1D283A33
    ∷ 0x3D3C3933 ∷ 0x38374048 ∷ 0x5C4E4044 ∷ 0x57453738 ∷ 0x506D5157 ∷ 0x5F626768 ∷ 0x673E4D71
    ∷ 0x79706478 ∷ 0x5C656763 ∷ []

abbrev pub jcqtbl1_words : List ℕ
jcqtbl1_words =
    0x11121218 ∷ 0x15182F1A ∷ 0x1A2F6342 ∷ 0x38426363 ∷ 0x63636363 ∷ 0x63636363 ∷ 0x63636363
    ∷ 0x63636363 ∷ 0x63636363 ∷ 0x63636363 ∷ 0x63636363 ∷ 0x63636363 ∷ 0x63636363 ∷ 0x63636363
    ∷ 0x63636363 ∷ 0x63636363 ∷ []

abbrev pub jchtbd0_words : List ℕ
jchtbd0_words =
    0x00010501 ∷ 0x01010101 ∷ 0x01000000 ∷ 0x00000000 ∷ 0x00010203 ∷ 0x04050607 ∷ 0x08090A0B ∷ []

abbrev pub jchtbd1_words : List ℕ
jchtbd1_words =
    0x00030101 ∷ 0x01010101 ∷ 0x01010100 ∷ 0x00000000 ∷ 0x00010203 ∷ 0x04050607 ∷ 0x08090A0B ∷ []

abbrev pub jchtba0_words : List ℕ
jchtba0_words =
    0x00020103 ∷ 0x03020403 ∷ 0x05050404 ∷ 0x0000017D ∷ 0x01020300 ∷ 0x04110512 ∷ 0x21314106
    ∷ 0x13516107 ∷ 0x22711432 ∷ 0x8191A108 ∷ 0x2342B1C1 ∷ 0x1552D1F0 ∷ 0x24336272 ∷ 0x82090A16
    ∷ 0x1718191A ∷ 0x25262728 ∷ 0x292A3435 ∷ 0x36373839 ∷ 0x3A434445 ∷ 0x46474849 ∷ 0x4A535455
    ∷ 0x56575859 ∷ 0x5A636465 ∷ 0x66676869 ∷ 0x6A737475 ∷ 0x76777879 ∷ 0x7A838485 ∷ 0x86878889
    ∷ 0x8A929394 ∷ 0x95969798 ∷ 0x999AA2A3 ∷ 0xA4A5A6A7 ∷ 0xA8A9AAB2 ∷ 0xB3B4B5B6 ∷ 0xB7B8B9BA
    ∷ 0xC2C3C4C5 ∷ 0xC6C7C8C9 ∷ 0xCAD2D3D4 ∷ 0xD5D6D7D8 ∷ 0xD9DAE1E2 ∷ 0xE3E4E5E6 ∷ 0xE7E8E9EA
    ∷ 0xF1F2F3F4 ∷ 0xF5F6F7F8 ∷ 0xF9FA0000 ∷ []

abbrev pub jchtba1_words : List ℕ
jchtba1_words =
    0x00020102 ∷ 0x04040304 ∷ 0x07050404 ∷ 0x00010277 ∷ 0x00010203 ∷ 0x11040521 ∷ 0x31061241
    ∷ 0x51076171 ∷ 0x13223281 ∷ 0x08144291 ∷ 0xA1B1C109 ∷ 0x233352F0 ∷ 0x156272D1 ∷ 0x0A162434
    ∷ 0xE125F117 ∷ 0x18191A26 ∷ 0x2728292A ∷ 0x35363738 ∷ 0x393A4344 ∷ 0x45464748 ∷ 0x494A5354
    ∷ 0x55565758 ∷ 0x595A6364 ∷ 0x65666768 ∷ 0x696A7374 ∷ 0x75767778 ∷ 0x797A8283 ∷ 0x84858687
    ∷ 0x88898A92 ∷ 0x93949596 ∷ 0x9798999A ∷ 0xA2A3A4A5 ∷ 0xA6A7A8A9 ∷ 0xAAB2B3B4 ∷ 0xB5B6B7B8
    ∷ 0xB9BAC2C3 ∷ 0xC4C5C6C7 ∷ 0xC8C9CAD2 ∷ 0xD3D4D5D6 ∷ 0xD7D8D9DA ∷ 0xE2E3E4E5 ∷ 0xE6E7E8E9
    ∷ 0xEAF2F3F4 ∷ 0xF5F6F7F8 ∷ 0xF9FA0000 ∷ []

-- One register write per word.
abbrev pub set_table : (ℕ → ℕ) → ℕ → List ℕ → Machine → Machine
set_table address n [] m = m
set_table address n (w ∷ ws) m = set_table address (n + 1) ws (jpu_setreg32 (address n) w m)

unfoldable pub shjpeg_jpu_init_quantization_table : Machine → Machine
shjpeg_jpu_init_quantization_table m =
    set_table jcqtbl1 0 jcqtbl1_words (set_table jcqtbl0 0 jcqtbl0_words m)

unfoldable pub shjpeg_jpu_init_huffman_table : Machine → Machine
shjpeg_jpu_init_huffman_table m = set_table jchtba1 0 jchtba1_words (
    set_table jchtba0 0 jchtba0_words
      (set_table jchtbd1 0 jchtbd1_words (set_table jchtbd0 0 jchtbd0_words m)))
