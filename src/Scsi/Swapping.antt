-- ===== src/Scsi/Swapping.antt =====
-- The byte order changes of kernel/scsi.c.
use hueos.Base.{
  ℕ, ◌+◌, ◌*◌, ◌/◌, ◌%◌, ◌^◌, ◌<◌, ◌≡◌, ◌∙◌, ap, arith, bit_and, bit_or, bit_and-field,
  bit_and-ones, bit_or-fields, bit_or_comm, ◌>>>◌, ◌<<<◌,
}
use hueos.Scsi.{swap32}

-- A word from its bytes, the lowest first.
abbrev pub word : ℕ → ℕ → ℕ → ℕ → ℕ
word a b c d = a + b * 2 ^ 8 + c * 2 ^ 16 + d * 2 ^ 24

swap32-eq :
    (v : ℕ)
    → v < 2 ^ 32
    → swap32 v ≡ word (v / 2 ^ 24 % 256) (v / 2 ^ 16 % 256) (v / 2 ^ 8 % 256) (v % 256)
unfolding swap32
swap32-eq v h =
    let a : ℕ = v / 2 ^ 24 % 256 in
    let b : ℕ = v / 2 ^ 16 % 256 in
    let c : ℕ = v / 2 ^ 8 % 256 in
    let d : ℕ = v % 256 in
    let ea : bit_and (v >>> 24) 0xFF ≡ a = omega (arith, bit_and-ones 8 (v >>> 24)) in
    let eb : bit_and (v >>> 8) 0xFF00 ≡ b * 2 ^ 8 = omega (arith, bit_and-field 8 8 (v >>> 8)) in
    let ec : bit_and (v <<< 8) 0xFF0000 ≡ c * 2 ^ 16 =
      omega (arith, bit_and-field 16 8 (v <<< 8)) in
    let ed : bit_and (v <<< 24) 0xFF000000 ≡ d * 2 ^ 24 =
      omega (arith, bit_and-field 24 8 (v <<< 24)) in
    let low : bit_or a (b * 2 ^ 8) ≡ b * 2 ^ 8 + a =
      bit_or_comm a (b * 2 ^ 8) ∙ bit_or-fields 8 b a (omega arith) in
    let mid : bit_or (b * 2 ^ 8 + a) (c * 2 ^ 16) ≡ c * 2 ^ 16 + (b * 2 ^ 8 + a) =
      bit_or_comm (b * 2 ^ 8 + a) (c * 2 ^ 16) ∙ bit_or-fields 16 c (b * 2 ^ 8 + a) (omega arith) in
    let all : bit_or (c * 2 ^ 16 + (b * 2 ^ 8 + a)) (d * 2 ^ 24)
        ≡ d * 2 ^ 24 + (c * 2 ^ 16 + (b * 2 ^ 8 + a)) =
      bit_or_comm (c * 2 ^ 16 + (b * 2 ^ 8 + a)) (d * 2 ^ 24)
      ∙ bit_or-fields 24 d (c * 2 ^ 16 + (b * 2 ^ 8 + a)) (omega arith) in
    rw (ea, eb, ec, ed, low, mid, all) (omega arith)

-- `swap32` turns the four bytes of a word round, and twice gives the word back.
swap32-word :
    (a b c d : ℕ)
    → a < 256
    → b < 256
    → c < 256
    → d < 256
    → (swap32 (word a b c d) ≡ word d c b a) × (swap32 (swap32 (word a b c d)) ≡ word a b c d)
swap32-word a b c d ha hb hc hd =
    let once : swap32 (word a b c d) ≡ word d c b a =
      omega (arith, swap32-eq (word a b c d) (omega arith)) in
    (once, ap swap32 once ∙ omega (arith, swap32-eq (word d c b a) (omega arith)))
