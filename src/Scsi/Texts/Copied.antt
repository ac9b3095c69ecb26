-- ===== src/Scsi/Texts/Copied.antt =====
-- What `scsi_string_copy` of kernel/scsi.c leaves in the destination.
use hueos.Base.{
  [], ◌∷◌, ℕ, zero, suc, ◌+◌, ◌≤◌, ◌<◌, ◌≡◌, ◌≢◌, ◌⊎◌, ◌∙◌, refl, sym, ap, arith, ◌||◌, ◌==◌,
  unequal, is_set, lt→ltb, Bool-cases, inl, inr, Bytes, length, length-set, get_or, set,
  get_or-set_self, get_or-set_ne, ℕ_discrete, true, false,
}
use hueos.Scsi.Texts.{copy_rounds, trim_blanks, scsi_string_copy}

abbrev Blank : ℕ → Type 0
Blank c = (c ≡ b' ') ⊎ (c ≡ 0)

Blank-test : (c : ℕ) → Blank c → ((c == b' ') || (c == 0)) ≡ true
Blank-test c h = elim h [ inl e ↦ rw e refl | inr e ↦ rw e refl ]

set-nul : (d : Bytes) (i p : ℕ) → get_or d p 0 ≡ 0 → get_or (set d i 0) p 0 ≡ 0
set-nul [] i p h = refl
set-nul (x ∷ d) zero zero h = refl
set-nul (x ∷ d) zero (suc p) h = h
set-nul (x ∷ d) (suc i) zero h = h
set-nul (x ∷ d) (suc i) (suc p) h = set-nul d i p h

test_other : (c : ℕ) → c ≢ b' ' → c ≢ 0 → ((c == b' ') || (c == 0)) ≡ false
test_other c p q = rw (unequal c b' ' p, unequal c 0 q) refl

-- What the copying loop gives when `n` is the first index that it does not copy.
record IsCopied (src : Bytes) (from to i n : ℕ) (before : Bytes) (r : ℕ × Bytes) : Type 0 where
  count : r.0 ≡ n
  size : length r.1 ≡ length before
  copied : (k : ℕ) → i ≤ k → k < n → get_or r.1 (to + k) 0 ≡ get_or src (from + k) 0
  others : (p : ℕ) → (p < to + i) ⊎ (to + n ≤ p) → get_or r.1 p 0 ≡ get_or before p 0

module _ (src : Bytes) (from to n : ℕ) where
  stop-IsCopied : (i : ℕ) (dest : Bytes) → n ≡ i → IsCopied src from to i n dest (i, dest)
  stop-IsCopied i dest e = record {
    count = sym e;
    size = refl;
    copied = λ k p q. absurd (omega arith);
    others = λ p out. refl;
  }

  step-IsCopied :
      (i : ℕ) (dest : Bytes) (r : ℕ × Bytes)
      → i < n
      → to + n ≤ length dest
      → IsCopied src from to (suc i) n (set dest (to + i) (get_or src (from + i) 0)) r
      → IsCopied src from to i n dest r
  step-IsCopied i dest r lt room h =
      let c : ℕ = get_or src (from + i) 0 in
      record {
        count = h.count;
        size = h.size ∙ length-set dest (to + i) c;
        copied = λ k p q. elim (ℕ_discrete k i) [
          | yes e ↦ rw e (
              h.others (to + i) (inl (omega arith))
              ∙ get_or-set_self dest (to + i) c 0 (omega arith))
          | no ne ↦ h.copied k (omega arith) q
        ];
        others = λ p out.
            h.others p (elim out [ inl a ↦ inl (omega arith) | inr b ↦ inr b ])
            ∙ get_or-set_ne dest (to + i) p c 0 (elim out [
              | inl a ↦ (λ e. absurd (omega arith))
              | inr b ↦ (λ e. absurd (omega arith))
            ]);
      }

  copy_rounds-IsCopied :
      (left i : ℕ) (dest : Bytes)
      → i ≤ n
      → n ≤ i + left
      → to + n ≤ length dest
      → ((j : ℕ) → i ≤ j → j < n → get_or src (from + j) 0 ≢ 0)
      → (n ≡ i + left) ⊎ (get_or src (from + n) 0 ≡ 0)
      → IsCopied src from to i n dest (copy_rounds left i dest to src from)
  unfolding copy_rounds
  copy_rounds-IsCopied zero i dest low high room text end = stop-IsCopied i dest (omega arith)
  copy_rounds-IsCopied (suc left) i dest low high room text end =
      elim (ℕ_discrete (get_or src (from + i) 0) 0) [
        | yes e ↦
            let same : n ≡ i = elim (ℕ_discrete n i) [
              | yes f ↦ f
              | no ne ↦ absurd (text i (omega arith) (omega arith) e)
            ] in
            rw e (stop-IsCopied i dest same)
        | no ne ↦
            let more : i < n = elim (ℕ_discrete n i) [
              | yes f ↦ elim end [
                | inl g ↦ absurd (omega arith)
                | inr g ↦ absurd (ne (ap (λ x. get_or src (from + x) 0) (sym f) ∙ g))
              ]
              | no f ↦ omega arith
            ] in
            let set' : Bytes = set dest (to + i) (get_or src (from + i) 0) in
            rw (lt→ltb 0 (get_or src (from + i) 0) (omega arith)) (
              step-IsCopied i dest _ more room (
                copy_rounds-IsCopied left (suc i) set' more (omega arith)
                  (omega (arith, length-set dest (to + i) (get_or src (from + i) 0)))
                  (λ j p q. text j (omega arith) q)
                  (elim end [ inl g ↦ inl (omega arith) | inr g ↦ inr g ])))
      ]

length-trim_blanks : (i : ℕ) (d : Bytes) (to : ℕ) → length (trim_blanks i d to) ≡ length d
unfolding trim_blanks
length-trim_blanks zero d to = refl
length-trim_blanks (suc i) d to =
    elim (Bool-cases ((get_or d (to + i) 0 == b' ') || (get_or d (to + i) 0 == 0))) [
      | inl e ↦ rw e (length-trim_blanks i (set d (to + i) 0) to ∙ length-set d (to + i) 0)
      | inr e ↦ rw e refl
    ]

trim_blanks-others :
    (i : ℕ) (d : Bytes) (to p : ℕ)
    → (p < to) ⊎ (to + i ≤ p)
    → get_or (trim_blanks i d to) p 0 ≡ get_or d p 0
unfolding trim_blanks
trim_blanks-others zero d to p out = refl
trim_blanks-others (suc i) d to p out =
    let out' : (p < to) ⊎ (to + i ≤ p) = elim out [ inl a ↦ inl a | inr b ↦ inr (omega arith) ] in
    let apart : to + i ≢ p = elim out [
      | inl a ↦ (λ e. absurd (omega arith))
      | inr b ↦ (λ e. absurd (omega arith))
    ] in
    elim (Bool-cases ((get_or d (to + i) 0 == b' ') || (get_or d (to + i) 0 == 0))) [
      | inl e ↦
          rw e (
            trim_blanks-others i (set d (to + i) 0) to p out'
            ∙ get_or-set_ne d (to + i) p 0 0 apart)
      | inr e ↦ rw e refl
    ]

-- A byte with one that is no blank at or behind it stays.
trim_blanks-kept :
    (i k j : ℕ) (d : Bytes) (to : ℕ)
    → k ≤ j
    → j < i
    → get_or d (to + j) 0 ≢ b' '
    → get_or d (to + j) 0 ≢ 0
    → get_or (trim_blanks i d to) (to + k) 0 ≡ get_or d (to + k) 0
unfolding trim_blanks
trim_blanks-kept zero k j d to p q ns nz = absurd (omega arith)
trim_blanks-kept (suc i) k j d to p q ns nz = elim (ℕ_discrete j i) [
  | yes e ↦ rw (test_other (get_or d (to + i) 0) (rw e at ns) (rw e at nz)) refl
  | no ne ↦
      let same : get_or (set d (to + i) 0) (to + j) 0 ≡ get_or d (to + j) 0 =
        get_or-set_ne d (to + i) (to + j) 0 0 (omega arith) in
      elim (Bool-cases ((get_or d (to + i) 0 == b' ') || (get_or d (to + i) 0 == 0))) [
        | inl e ↦ rw e (
            trim_blanks-kept i k j (set d (to + i) 0) to p (omega arith) (λ f. ns (sym same ∙ f))
              (λ f. nz (sym same ∙ f))
            ∙ get_or-set_ne d (to + i) (to + k) 0 0 (omega arith))
        | inr e ↦ rw e refl
      ]
]

-- A byte that only blanks follow becomes NUL, if it is one.
trim_blanks-cut :
    (i k : ℕ) (d : Bytes) (to : ℕ)
    → k < i
    → to + i ≤ length d
    → ((j : ℕ) → k ≤ j → j < i → Blank (get_or d (to + j) 0))
    → get_or (trim_blanks i d to) (to + k) 0 ≡ 0
unfolding trim_blanks
trim_blanks-cut zero k d to lt fits h = absurd (omega arith)
trim_blanks-cut (suc i) k d to lt fits h =
    rw (Blank-test (get_or d (to + i) 0) (h i (omega arith) (omega arith))) (elim (ℕ_discrete k i) [
      | yes e ↦ rw e (
          trim_blanks-others i (set d (to + i) 0) to (to + i) (inr (omega arith))
          ∙ get_or-set_self d (to + i) 0 0 (omega arith))
      | no ne ↦
          trim_blanks-cut i k (set d (to + i) 0) to (omega arith)
            (omega (arith, length-set d (to + i) 0))
            (λ j p q.
              still j (get_or-set_ne d (to + i) (to + j) 0 0 (omega arith)) (h j p (omega arith)))
    ])
  where
    still :
        (j : ℕ)
        → get_or (set d (to + i) 0) (to + j) 0 ≡ get_or d (to + j) 0
        → Blank (get_or d (to + j) 0)
        → Blank (get_or (set d (to + i) 0) (to + j) 0)
    still j e b = rw e b

-- What is NUL stays NUL.
trim_blanks-nul :
    (i p : ℕ) (d : Bytes) (to : ℕ) → get_or d p 0 ≡ 0 → get_or (trim_blanks i d to) p 0 ≡ 0
unfolding trim_blanks
trim_blanks-nul zero p d to h = h
trim_blanks-nul (suc i) p d to h =
    elim (Bool-cases ((get_or d (to + i) 0 == b' ') || (get_or d (to + i) 0 == 0))) [
      | inl e ↦ rw e (trim_blanks-nul i p (set d (to + i) 0) to (set-nul d (to + i) p h))
      | inr e ↦ rw e h
    ]

-- `n` characters are copied: `length` of them, or those before the NUL at `n`. A copied byte stays if something other
-- than a space stands at or behind it among them, and the byte after them is NUL. If all `length` were copied, a space
-- that only spaces follow is NUL. Every byte outside the `length + 1` from the destination on is unchanged.
pub scsi_string_copy-text :
    (dest : Bytes) (to : ℕ) (src : Bytes) (from size n : ℕ)
    → n ≤ size
    → to + size < length dest
    → ((j : ℕ) → j < n → get_or src (from + j) 0 ≢ 0)
    → (n ≡ size) ⊎ (get_or src (from + n) 0 ≡ 0)
    → (let result = scsi_string_copy dest to src from size in
        ((k j : ℕ)
          → k ≤ j
          → j < n
          → get_or src (from + j) 0 ≢ b' '
          → get_or result (to + k) 0 ≡ get_or src (from + k) 0)
        × (get_or result (to + n) 0 ≡ 0)
        × ((k : ℕ)
            → n ≡ size
            → k < n
            → ((j : ℕ) → k ≤ j → j < n → get_or src (from + j) 0 ≡ b' ')
            → get_or result (to + k) 0 ≡ 0)
        × ((p : ℕ) → (p < to) ⊎ (to + size < p) → get_or result p 0 ≡ get_or dest p 0)
        × (length result ≡ length dest))
unfolding scsi_string_copy
scsi_string_copy-text dest to src from size n short room text end = rw all.count (
  (λ k j p q ns.
      trim_blanks-kept size k j whole to p (omega arith) (λ e. ns (sym (cell j q) ∙ e))
        (λ e. text j q (sym (cell j q) ∙ e))
      ∙ cell k (omega arith)),
  trim_blanks-nul size (to + n) whole to nul,
  (λ k full lt blanks.
      trim_blanks-cut size k whole to (omega arith) (omega (arith, whole_size))
        (λ j p q. inl (cell j (omega arith) ∙ blanks j p (omega arith)))),
  (λ p out.
      trim_blanks-others size whole to p (elim out [ inl a ↦ inl a | inr b ↦ inr (omega arith) ])
      ∙ get_or-set_ne copied (to + n) p 0 0 (apart p out)
      ∙ all.others p (elim out [ inl a ↦ inl (omega arith) | inr b ↦ inr (omega arith) ])),
  length-trim_blanks size whole to ∙ whole_size,
)
  where
    copied : Bytes
    copied = (copy_rounds size 0 dest to src from).1

    whole : Bytes
    whole = set copied (to + n) 0

    all : IsCopied src from to 0 n dest (copy_rounds size 0 dest to src from)
    all =
        copy_rounds-IsCopied src from to n size 0 dest (omega arith) (omega arith) (omega arith)
          (λ j p q. text j q) (elim end [ inl e ↦ inl (omega arith) | inr e ↦ inr e ])

    whole_size : length whole ≡ length dest
    whole_size = length-set copied (to + n) 0 ∙ all.size

    cell : (k : ℕ) → k < n → get_or whole (to + k) 0 ≡ get_or src (from + k) 0
    cell k lt =
        get_or-set_ne copied (to + n) (to + k) 0 0 (omega arith) ∙ all.copied k (omega arith) lt

    nul : get_or whole (to + n) 0 ≡ 0
    nul = get_or-set_self copied (to + n) 0 0 (omega (arith, all.size))

    apart : (p : ℕ) → (p < to) ⊎ (to + size < p) → to + n ≢ p
    apart p out e = elim out [ inl a ↦ absurd (omega arith) | inr b ↦ absurd (omega arith) ]

length-copy_rounds :
    (left i : ℕ) (dest : Bytes) (to : ℕ) (src : Bytes) (from : ℕ)
    → length (copy_rounds left i dest to src from).1 ≡ length dest
unfolding copy_rounds
length-copy_rounds zero i dest to src from = refl
length-copy_rounds (suc left) i dest to src from =
    let c : ℕ = get_or src (from + i) 0 in
    elim (Bool-cases (is_set c)) [
      | inl e ↦ rw e (
          length-copy_rounds left (suc i) (set dest (to + i) c) to src from
          ∙ length-set dest (to + i) c)
      | inr e ↦ rw e refl
    ]

pub length-scsi_string_copy :
    (dest : Bytes) (to : ℕ) (src : Bytes) (from size : ℕ)
    → length (scsi_string_copy dest to src from size) ≡ length dest
unfolding scsi_string_copy
length-scsi_string_copy dest to src from size =
    let r = copy_rounds size 0 dest to src from in
    length-trim_blanks size (set r.1 (to + r.0) 0) to
    ∙ length-set r.1 (to + r.0) 0
    ∙ length-copy_rounds size 0 dest to src from
