-- ===== src/Scsi/Texts/Read.antt =====
-- Fixed texts that `scsi_string_copy` of kernel/scsi.c copies: padded ones, and ones already trimmed.
use Prim.Native.String.{String}
use hueos.Base.{
  ℕ, ◌+◌, ◌-◌, ◌≤◌, ◌<◌, ◌≡◌, ◌≢◌, ◌⊎◌, ◌∙◌, refl, sym, ap, arith, inl, inr, Bool, true, not, ◌&&◌,
  ◌==◌, ==_iff, and-true, leb, leb→le, ltb, ltb→lt, Bytes, codes, length, get_or, holds_below,
  holds_below-lt, dec_lt,
}
use hueos.Scsi.Texts.{scsi_string_copy}
use hueos.Scsi.Texts.Copied.{scsi_string_copy-text}

-- The bytes from `at` on are the text, with a NUL behind it.
abbrev pub Reads : Bytes → ℕ → String → Type 0
Reads m at text =
    ((k : ℕ) → k < length (codes text) → get_or m (at + k) 0 ≡ get_or (codes text) k 0)
    × (get_or m (at + length (codes text)) 0 ≡ 0)

-- A text with no NUL whose last character is no space.
pub record IsTrimmed (text : String) : Type 0 where
  pub some_text : 0 < length (codes text)
  pub no_nul : (j : ℕ) → j < length (codes text) → get_or (codes text) j 0 ≢ 0
  pub last : get_or (codes text) (length (codes text) - 1) 0 ≢ b' '

abbrev pub looks_trimmed : String → Bool
looks_trimmed text =
    ltb 0 (length (codes text))
    && (holds_below (length (codes text)) (λ j. not (get_or (codes text) j 0 == 0))
        && not (get_or (codes text) (length (codes text) - 1) 0 == b' '))

pub unequal_of : (a b : ℕ) → not (a == b) ≡ true → a ≢ b
unequal_of a b h = ground arith

pub looks_trimmed-IsTrimmed : (text : String) → looks_trimmed text ≡ true → IsTrimmed text
looks_trimmed-IsTrimmed text h =
    let first = and-true _ _ h in
    let second = and-true _ _ first.1 in
    record {
      some_text = ltb→lt 0 (length (codes text)) first.0;
      no_nul = λ j lt. unequal_of (get_or (codes text) j 0) 0 (
          holds_below-lt (length (codes text)) (λ j. not (get_or (codes text) j 0 == 0)) j second.0
            lt);
      last = unequal_of (get_or (codes text) (length (codes text) - 1) 0) b' ' second.1;
    }

-- The padded text begins with the text, and has spaces up to the size.
abbrev pub pads : String → String → ℕ → Bool
pads text padded size =
    leb (length (codes text)) size
    && (holds_below (length (codes text))
          (λ k. get_or (codes padded) k 0 == get_or (codes text) k 0)
        && holds_below (size - length (codes text))
            (λ k. get_or (codes padded) (length (codes text) + k) 0 == b' '))

-- A trimmed text is copied as it is.
pub copy-Reads :
    (dest : Bytes) (to : ℕ) (src : Bytes) (from size : ℕ) (text : String)
    → to + size < length dest
    → length (codes text) ≤ size
    → IsTrimmed text
    → Reads src from text
    → Reads (scsi_string_copy dest to src from size) to text
copy-Reads dest to src from size text room fits trimmed (same, nul) =
    let n : ℕ = length (codes text) in
    let l : ℕ = n - 1 in
    let result =
      scsi_string_copy-text dest to src from size n fits room
        (λ j lt e. trimmed.no_nul j lt (sym (same j lt) ∙ e)) (inr nul) in
    let ends = trimmed.some_text in
    (
      (λ k lt.
          result.0 k l (omega arith) (omega arith)
            (λ e. trimmed.last (sym (same l (omega arith)) ∙ e))
          ∙ same k lt),
      result.1,
    )

-- The characters of a padded text.
pub record IsPadded (text padded : String) (size : ℕ) : Type 0 where
  pub fits : length (codes text) ≤ size
  pub same : (k : ℕ) → k < length (codes text) → get_or (codes padded) k 0 ≡ get_or (codes text) k 0
  pub spaces : (k : ℕ) → length (codes text) ≤ k → k < size → get_or (codes padded) k 0 ≡ b' '

pub pads-IsPadded :
    (text padded : String) (size : ℕ) → pads text padded size ≡ true → IsPadded text padded size
pads-IsPadded text padded size h =
    let n : ℕ = length (codes text) in
    let first = and-true _ _ h in
    let second = and-true _ _ first.1 in
    record {
      fits = leb→le n size first.0;
      same = λ k lt. (==_iff (get_or (codes padded) k 0) (get_or (codes text) k 0)).0 (
          holds_below-lt n (λ k. get_or (codes padded) k 0 == get_or (codes text) k 0) k second.0
            lt);
      spaces = λ k low lt.
          let here : n + (k - n) ≡ k = omega arith in
          ap (λ x. get_or (codes padded) x 0) (sym here)
          ∙ (==_iff (get_or (codes padded) (n + (k - n)) 0) b' ').0 (
              holds_below-lt (size - n) (λ k. get_or (codes padded) (n + k) 0 == b' ') (k - n)
                second.1 (omega arith));
    }

-- The literal has no NUL up to the size.
padded_char :
    (size : ℕ) (text padded : String)
    → IsTrimmed text
    → IsPadded text padded size
    → (j : ℕ) → j < size
    → get_or (codes padded) (0 + j) 0 ≢ 0
padded_char size text padded trimmed padding j lt =
    let plain : 0 + j ≡ j = omega arith in
    rw plain (elim (dec_lt j (length (codes text))) [
      | yes low ↦ (λ e. trimmed.no_nul j low (sym (padding.same j low) ∙ e))
      | no high ↦
          let sp : get_or (codes padded) j 0 ≡ b' ' = padding.spaces j (omega arith) lt in
          (λ e. absurd (omega (arith, sp)))
    ])

-- The copy leaves the length, and the bytes outside the `size + 1` from the destination on.
pub copy_padded_others :
    (dest : Bytes) (to size : ℕ) (text padded : String)
    → to + size < length dest
    → IsTrimmed text
    → IsPadded text padded size
    → (length (scsi_string_copy dest to (codes padded) 0 size) ≡ length dest)
      × ((p : ℕ)
          → (p < to) ⊎ (to + size < p)
          → get_or (scsi_string_copy dest to (codes padded) 0 size) p 0 ≡ get_or dest p 0)
copy_padded_others dest to size text padded room trimmed padding =
    let result =
      scsi_string_copy-text dest to (codes padded) 0 size size (omega arith) room
        (padded_char size text padded trimmed padding) (inl refl) in
    (result.4, result.3)

-- A padded text loses its spaces.
pub copy_padded-Reads :
    (dest : Bytes) (to size : ℕ) (text padded : String)
    → to + size < length dest
    → IsTrimmed text
    → IsPadded text padded size
    → Reads (scsi_string_copy dest to (codes padded) 0 size) to text
copy_padded-Reads dest to size text padded room trimmed padding =
    let n : ℕ = length (codes text) in
    let l : ℕ = n - 1 in
    let result =
      scsi_string_copy-text dest to (codes padded) 0 size size (omega arith) room
        (padded_char size text padded trimmed padding) (inl refl) in
    let ends = trimmed.some_text in
    let short = padding.fits in
    (
      (λ k lt.
          result.0 k l (omega arith) (omega arith)
            (λ e. trimmed.last (sym (padding.same l (omega arith)) ∙ sym (plain l) ∙ e))
          ∙ plain k
          ∙ padding.same k lt),
      elim (dec_lt n size) [
        | yes more ↦ result.2 n refl more (λ j p q. plain j ∙ padding.spaces j p q)
        | no full ↦ let e : n ≡ size = omega arith in rw e result.1
      ],
    )
  where
    plain : (j : ℕ) → get_or (codes padded) (0 + j) 0 ≡ get_or (codes padded) j 0
    plain j = ap (λ x. get_or (codes padded) x 0) (omega arith)
