-- ===== src/Ide/Names.antt =====
-- `ide_string_copy` of kernel/ide.c: the model name as text.
use hueos.Base.{
  ℕ, zero, suc, ◌+◌, ◌*◌, ◌/◌, ◌%◌, ◌≤◌, ◌<◌, ◌≡◌, ◌≢◌, ◌∙◌, refl, sym, ap, List, arith, u8,
  bit_and, bit_and-ones, ◌>>>◌, get_or, set, length, length-set, get_or-set_self, get_or-set_ne,
  for_up, for_up_inv, Bytes, ◌==◌, if◌then◌else◌, ==_iff, ℕ_discrete, Bool-cases, inl, inr,
}
use hueos.Ide.{trim_spaces, ide_string_copy}

-- Byte `k` of the text in the identify data: the high byte of a word comes first.
unfoldable pub byte_of : List ℕ → ℕ → ℕ
byte_of src k = if k % 2 == 0 then get_or src (k / 2) 0 / 256 % 256 else get_or src (k / 2) 0 % 256

trim_spaces-above : (i k : ℕ) (d : Bytes) → i ≤ k → get_or (trim_spaces i d) k 0 ≡ get_or d k 0
unfolding trim_spaces
trim_spaces-above zero k d h = refl
trim_spaces-above (suc i) k d h = elim (Bool-cases (get_or d i 0 == b' ')) [
  | inl e ↦
      rw e (trim_spaces-above i k (set d i 0) (omega arith) ∙ get_or-set_ne d i k 0 0 (omega arith))
  | inr e ↦ rw e refl
]

-- A space that only spaces follow becomes NUL.
trim_spaces-blank :
    (i k : ℕ) (d : Bytes)
    → k < i
    → i ≤ length d
    → ((j : ℕ) → k ≤ j → j < i → get_or d j 0 ≡ b' ')
    → get_or (trim_spaces i d) k 0 ≡ 0
unfolding trim_spaces
trim_spaces-blank zero k d lt fits h = absurd (omega arith)
trim_spaces-blank (suc i) k d lt fits h =
    rw ((==_iff (get_or d i 0) b' ').1 (h i (omega arith) (omega arith))) (elim (ℕ_discrete k i) [
      | yes e ↦
          rw e (
            trim_spaces-above i i (set d i 0) (omega arith) ∙ get_or-set_self d i 0 0 (omega arith))
      | no ne ↦
          trim_spaces-blank i k (set d i 0) (omega arith) (omega (arith, length-set d i 0))
            (λ j p q. get_or-set_ne d i j 0 0 (omega arith) ∙ h j p (omega arith))
    ])

-- A byte with something other than a space at or behind it stays.
trim_spaces-kept :
    (i k j : ℕ) (d : Bytes)
    → k ≤ j
    → j < i
    → get_or d j 0 ≢ b' '
    → get_or (trim_spaces i d) k 0 ≡ get_or d k 0
unfolding trim_spaces
trim_spaces-kept zero k j d p q ne = absurd (omega arith)
trim_spaces-kept (suc i) k j d p q ne = elim (Bool-cases (get_or d i 0 == b' ')) [
  | inl e ↦
      let before : j ≢ i =
        λ same. ne (ap (λ x. get_or d x 0) same ∙ (==_iff (get_or d i 0) b' ').0 e) in
      rw e (
        trim_spaces-kept i k j (set d i 0) p (omega arith)
          (λ f. ne (sym (get_or-set_ne d i j 0 0 (omega arith)) ∙ f))
        ∙ get_or-set_ne d i k 0 0 (omega arith))
  | inr e ↦ rw e refl
]

abbrev swap_word : List ℕ → ℕ → Bytes → Bytes
swap_word src i d =
    set (set d (2 * i) (u8 (bit_and (get_or src i 0 >>> 8) 0xFF))) (2 * i + 1)
      (u8 (bit_and (get_or src i 0) 0xFF))

-- What the copying loop has done after `i` words.
abbrev Swapped : List ℕ → ℕ → ℕ → Bytes → Type 0
Swapped src size i d = (length d ≡ size) × ((k : ℕ) → k < 2 * i → get_or d k 0 ≡ byte_of src k)

byte_of-even :
    (src : List ℕ) (i : ℕ) → u8 (bit_and (get_or src i 0 >>> 8) 0xFF) ≡ byte_of src (2 * i)
unfolding byte_of
byte_of-even src i =
    let half : 2 * i / 2 ≡ i = omega arith in
    let even : 2 * i % 2 ≡ 0 = omega arith in
    rw (half, even) (omega (arith, bit_and-ones 8 (get_or src i 0 >>> 8)))

byte_of-odd : (src : List ℕ) (i : ℕ) → u8 (bit_and (get_or src i 0) 0xFF) ≡ byte_of src (2 * i + 1)
unfolding byte_of
byte_of-odd src i =
    let half : (2 * i + 1) / 2 ≡ i = omega arith in
    let odd : (2 * i + 1) % 2 ≡ 1 = omega arith in
    rw (half, odd) (omega (arith, bit_and-ones 8 (get_or src i 0)))

swap_word-Swapped :
    (src : List ℕ) (size i : ℕ) (d : Bytes)
    → 2 * i + 1 < size
    → Swapped src size i d
    → Swapped src size (suc i) (swap_word src i d)
swap_word-Swapped src size i d fits (len, done) =
    (length-set (set d (2 * i) high) (2 * i + 1) low ∙ length-set d (2 * i) high ∙ len, cell)
  where
    high : ℕ
    high = u8 (bit_and (get_or src i 0 >>> 8) 0xFF)

    low : ℕ
    low = u8 (bit_and (get_or src i 0) 0xFF)

    other :
        (k : ℕ) → k ≢ 2 * i + 1 → get_or (swap_word src i d) k 0 ≡ get_or (set d (2 * i) high) k 0
    other k ne = get_or-set_ne (set d (2 * i) high) (2 * i + 1) k low 0 (omega arith)

    cell : (k : ℕ) → k < 2 * suc i → get_or (swap_word src i d) k 0 ≡ byte_of src k
    cell k lt = elim (ℕ_discrete k (2 * i + 1)) [
      | yes e ↦ rw e (
          get_or-set_self (set d (2 * i) high) (2 * i + 1) low 0
            (omega (arith, length-set d (2 * i) high))
          ∙ byte_of-odd src i)
      | no ne ↦ elim (ℕ_discrete k (2 * i)) [
        | yes e ↦
            other k ne ∙ rw e (get_or-set_self d (2 * i) high 0 (omega arith) ∙ byte_of-even src i)
        | no ne' ↦
            other k ne ∙ get_or-set_ne d (2 * i) k high 0 (omega arith) ∙ done k (omega arith)
      ]
    ]

-- The copy of `n` words into an array with room for them and a NUL is the text of the words, high byte first, without
-- its trailing spaces: a byte stays if something other than a space stands at or behind it, a space followed by spaces
-- alone is NUL, and so is the byte after the text.
pub ide_string_copy-text :
    (dest : Bytes) (src : List ℕ) (n k : ℕ)
    → 2 * n < length dest
    → k < 2 * n
    → ((j : ℕ)
        → k ≤ j
        → j < 2 * n
        → byte_of src j ≢ b' '
        → get_or (ide_string_copy dest src (2 * n)) k 0 ≡ byte_of src k)
      × (((j : ℕ) → k ≤ j → j < 2 * n → byte_of src j ≡ b' ')
          → get_or (ide_string_copy dest src (2 * n)) k 0 ≡ 0)
      × (get_or (ide_string_copy dest src (2 * n)) (2 * n) 0 ≡ 0)
unfolding ide_string_copy
ide_string_copy-text dest src n k room lt =
    let rounds : (2 * n + 1) / 2 ≡ n = omega arith in
    rw rounds (
      (λ j p q ne.
          trim_spaces-kept (2 * n) k j whole p q (λ e. ne (sym (cell j q) ∙ e)) ∙ cell k lt),
      (λ blank.
          trim_spaces-blank (2 * n) k whole lt (omega (arith, size))
            (λ j p q. cell j q ∙ blank j p q)),
      trim_spaces-above (2 * n) (2 * n) whole (omega arith)
          ∙ get_or-set_self copied (2 * n) 0 0 (omega (arith, all.0)),
    )
  where
    copied : Bytes
    copied = for_up n 0 (swap_word src) dest

    whole : Bytes
    whole = set copied (2 * n) 0

    all : Swapped src (length dest) n copied
    all =
        for_up_inv (Swapped src (length dest)) (swap_word src) n 0 n dest
          (λ i d _ below p. swap_word-Swapped src (length dest) i d (omega arith) p) (omega arith)
          (refl, (λ j below. absurd (omega arith)))

    size : length whole ≡ length dest
    size = length-set copied (2 * n) 0 ∙ all.0

    cell : (j : ℕ) → j < 2 * n → get_or whole j 0 ≡ byte_of src j
    cell j below = get_or-set_ne copied (2 * n) j 0 0 (omega arith) ∙ all.1 j below
