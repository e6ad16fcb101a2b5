-- ===== src/Memory.antt =====
-- Memory as C sees it: bytes at addresses, little-endian 32-bit loads and stores, and `memcpy`
-- between buffers that do not overlap.
use libshjpeg.Base.{
  ℕ, ◌+◌, ◌-◌, ◌*◌, ◌/◌, ◌%◌, ◌^◌, ◌≤◌, ◌<◌, ◌≡◌, arith, ltb, leb, ◌==◌, if◌then◌else◌, ◌&&◌, ◌⊎◌,
}

abbrev pub Mem : Type 0
Mem = ℕ → ℕ

abbrev pub IsBytes : Mem → Type 0
IsBytes m = (a : ℕ) → m a < 256

-- A 32-bit value from its bytes, lowest first.
unfoldable pub word : ℕ → ℕ → ℕ → ℕ → ℕ
word b0 b1 b2 b3 = b0 + b1 * 2 ^ 8 + b2 * 2 ^ 16 + b3 * 2 ^ 24

unfoldable pub load32 : Mem → ℕ → ℕ
load32 m a = word (m a) (m (a + 1)) (m (a + 2)) (m (a + 3))

unfoldable pub store32 : Mem → ℕ → ℕ → Mem
store32 m a w b =
    if b == a
    then w % 256
    else if b == a + 1
    then w / 2 ^ 8 % 256
    else if b == a + 2
    then w / 2 ^ 16 % 256
    else if b == a + 3
    then w / 2 ^ 24 % 256
    else m b

unfoldable pub memcpy : Mem → ℕ → Mem → ℕ → ℕ → Mem
memcpy dst d src s n b = if leb d b && ltb b (d + n) then src (s + (b - d)) else dst b

-- The low 32 bits of a shift to the left.
unfoldable pub shl32 : ℕ → ℕ → ℕ
shl32 x k = x * 2 ^ k % 2 ^ 32

pub store32-outside : (m : Mem) (a w b : ℕ) → (b < a) ⊎ (a + 4 ≤ b) → store32 m a w b ≡ m b
unfolding store32
store32-outside m a w b h = ground arith

pub store32-word :
    (m : Mem) (a b0 b1 b2 b3 : ℕ)
    → b0 < 256
    → b1 < 256
    → b2 < 256
    → b3 < 256
    → (store32 m a (word b0 b1 b2 b3) a ≡ b0)
      × (store32 m a (word b0 b1 b2 b3) (a + 1) ≡ b1)
      × (store32 m a (word b0 b1 b2 b3) (a + 2) ≡ b2)
      × (store32 m a (word b0 b1 b2 b3) (a + 3) ≡ b3)
unfolding store32 word
store32-word m a b0 b1 b2 b3 h0 h1 h2 h3 = (ground arith, ground arith, ground arith, ground arith)

pub memcpy-inside :
    (dst : Mem) (d : ℕ) (src : Mem) (s n i : ℕ) → i < n → memcpy dst d src s n (d + i) ≡ src (s + i)
unfolding memcpy
memcpy-inside dst d src s n i h = ground arith

pub memcpy-outside :
    (dst : Mem) (d : ℕ) (src : Mem) (s n b : ℕ)
    → (b < d) ⊎ (d + n ≤ b)
    → memcpy dst d src s n b ≡ dst b
unfolding memcpy
memcpy-outside dst d src s n b h = ground arith

pub store32-IsBytes : (m : Mem) (a w : ℕ) → IsBytes m → IsBytes (store32 m a w)
unfolding store32
store32-IsBytes m a w h b = ground (arith, h b)

pub memcpy-IsBytes :
    (dst : Mem) (d : ℕ) (src : Mem) (s n : ℕ)
    → IsBytes dst
    → IsBytes src
    → IsBytes (memcpy dst d src s n)
unfolding memcpy
memcpy-IsBytes dst d src s n hd hs b = ground (arith, hd b, hs (s + (b - d)))

-- A 16-bit store, lowest byte first.
unfoldable pub store16 : Mem → ℕ → ℕ → Mem
store16 m a w b = if b == a then w % 256 else if b == a + 1 then w / 2 ^ 8 % 256 else m b

pub store16-outside : (m : Mem) (a w b : ℕ) → (b < a) ⊎ (a + 2 ≤ b) → store16 m a w b ≡ m b
unfolding store16
store16-outside m a w b h = ground arith

pub store16-bytes :
    (m : Mem) (a lo hi : ℕ)
    → lo < 256
    → hi < 256
    → (store16 m a (hi * 2 ^ 8 + lo) a ≡ lo) × (store16 m a (hi * 2 ^ 8 + lo) (a + 1) ≡ hi)
unfolding store16
store16-bytes m a lo hi h h' = (ground arith, ground arith)

-- A byte store.
unfoldable pub store8 : Mem → ℕ → ℕ → Mem
store8 m a w b = if b == a then w % 256 else m b

pub store8-outside : (m : Mem) (a w b : ℕ) → (b < a) ⊎ (a + 1 ≤ b) → store8 m a w b ≡ m b
unfolding store8
store8-outside m a w b h = ground arith

pub store8-at : (m : Mem) (a w : ℕ) → w < 256 → store8 m a w a ≡ w
unfolding store8
store8-at m a w h = ground arith
