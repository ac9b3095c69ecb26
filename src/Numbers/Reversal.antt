-- ===== src/Numbers/Reversal.antt =====
-- The two loops that turn a list of digits round do so.
use hueos.Base.{
  ℕ, suc, ◌+◌, ◌-◌, ◌/◌, ◌<◌, ◌≤◌, ◌≡◌, ◌⊎◌, inl, inr, refl, sym, ap, ◌∙◌, [], ◌∷◌, ◌++◌, reverse,
  arith, Bytes, length, get_or, set, for_up_inv, length-append, length-set, length-reverse,
  get_or-set_self, get_or-set_ne, get_or-append_left, get_or-append_right, get_or_ext,
  get_or-reverse, dec_lt, ◌==◌, if◌then◌else◌,
}
use hueos.Numbers.{swap_ends, reverse_part, copy_back}

-- After `j` rounds of `copy_back`, the last `j` digits are out.
pub copy_back-reverse : (digits : Bytes) → copy_back digits ≡ reverse digits
unfolding copy_back
copy_back-reverse digits =
    get_or_ext 0 (copy_back digits) (reverse digits) (done.0 ∙ sym (length-reverse digits))
      (λ i below.
        done.1 i (omega (arith, done.0)) ∙ sym (get_or-reverse digits i 0 (omega (arith, done.0))))
  where
    Copied : ℕ → Bytes → Type 0
    Copied j out =
        (length out ≡ j)
        × ((i : ℕ) → i < j → get_or out i 0 ≡ get_or digits (length digits - 1 - i) 0)

    done : Copied (length digits) (copy_back digits)
    done =
        for_up_inv Copied (λ k out. out ++ get_or digits (length digits - 1 - k) 0 ∷ [])
          (length digits) 0 (length digits) []
          (λ j out _ below c. (
            omega (arith, length-append out (get_or digits (length digits - 1 - j) 0 ∷ []), c.0),
            λ i lt. elim (dec_lt i j) [
              | yes p ↦ get_or-append_left out _ i 0 (omega (arith, c.0)) ∙ c.1 i p
              | no p ↦
                  let e : i ≡ j = omega arith in
                  get_or-append_right out (get_or digits (length digits - 1 - j) 0 ∷ []) i 0 0
                    (omega (arith, c.0))
                  ∙ ap (λ k. get_or digits (length digits - 1 - k) 0) (sym e)
            ],
          ))
          (omega arith) (refl, λ i below. absurd (omega arith))

-- Where `swap_ends` has put what, index by index.
swap_ends-get_or :
    (start end j k : ℕ) (buf : Bytes)
    → j < length buf
    → end - 1 - (j - start) < length buf
    → get_or (swap_ends start end j buf) k 0 ≡ (
        if k == end - 1 - (j - start)
        then get_or buf j 0
        else if k == j
        then get_or buf (end - 1 - (j - start)) 0
        else get_or buf k 0)
unfolding swap_ends
swap_ends-get_or start end j k buf hj hm =
    let m : ℕ = end - 1 - (j - start) in
    let buf' : Bytes = set buf j (get_or buf m 0) in
    ground (
      arith,
      length-set buf j (get_or buf m 0),
      get_or-set_self buf' m (get_or buf j 0) 0,
      get_or-set_ne buf' m k (get_or buf j 0) 0,
      get_or-set_self buf j (get_or buf m 0) 0,
      get_or-set_ne buf j k (get_or buf m 0) 0,
    )

length-swap_ends : (start end j : ℕ) (buf : Bytes) → length (swap_ends start end j buf) ≡ length buf
unfolding swap_ends
length-swap_ends start end j buf = length-set _ _ _ ∙ length-set buf j _

module _ (orig : Bytes) (start end : ℕ) (fits : end ≡ length orig) where
  -- The loop has come to `j`: what lies outside `j` and its mirror image has been turned round.
  record Turned (j : ℕ) (buf : Bytes) : Type 0 where
    same_length : length buf ≡ length orig
    swapped :
        (k : ℕ)
        → start ≤ k
        → k < end
        → (k < j) ⊎ (end - 1 - (k - start) < j)
        → get_or buf k 0 ≡ get_or orig (end - 1 - (k - start)) 0
    kept :
        (k : ℕ)
        → (k < start) ⊎ ((j ≤ k) × (j ≤ end - 1 - (k - start)))
        → get_or buf k 0 ≡ get_or orig k 0

  swap_ends-Turned :
      (j : ℕ) (buf : Bytes)
      → start ≤ j
      → j < start + (end - start) / 2
      → Turned j buf
      → Turned (suc j) (swap_ends start end j buf)
  swap_ends-Turned j buf from to t = record {
    same_length = length-swap_ends start end j buf ∙ t.same_length;
    swapped = λ k lo hi side. ground (
      arith,
      swap_ends-get_or start end j k buf,
      t.same_length,
      t.swapped k,
      t.kept j,
      t.kept (end - 1 - (j - start)),
      fits,
    );
    kept =
        λ k side. ground (arith, swap_ends-get_or start end j k buf, t.same_length, t.kept k, fits);
  }

  reverse_part-Turned :
      start ≤ end → Turned (start + (end - start) / 2) (reverse_part start end orig)
  unfolding reverse_part
  reverse_part-Turned le =
      for_up_inv Turned (swap_ends start end) ((end - start) / 2) start (start + (end - start) / 2)
        orig swap_ends-Turned refl
        (record {
          same_length = refl;
          swapped = λ k lo hi side. absurd (ground arith);
          kept = λ k side. refl;
        })

-- The in-place loop turns the part from `start` on round and leaves what stands before it.
pub reverse_part-reverse :
    (pre xs : Bytes)
    → reverse_part (length pre) (length pre + length xs) (pre ++ xs) ≡ pre ++ reverse xs
reverse_part-reverse pre xs =
    get_or_ext 0 out (pre ++ reverse xs)
      (t.same_length
        ∙ omega (arith, length-append pre xs, length-append pre (reverse xs), length-reverse xs))
      (λ i below. elim (dec_lt i n) [
        | yes p ↦
            t.kept i (inl p)
            ∙ get_or-append_left pre xs i 0 p
            ∙ sym (get_or-append_left pre (reverse xs) i 0 p)
        | no p ↦
            let inside : i < n + length xs = omega (arith, t.same_length, length-append pre xs) in
            turned i (omega arith) inside
            ∙ get_or-append_right pre xs (n + length xs - 1 - (i - n)) (length xs - 1 - (i - n)) 0
                (omega arith)
            ∙ sym (get_or-reverse xs (i - n) 0 (omega arith))
            ∙ sym (get_or-append_right pre (reverse xs) i (i - n) 0 (omega arith))
      ])
  where
    n : ℕ
    n = length pre

    out : Bytes
    out = reverse_part n (n + length xs) (pre ++ xs)

    t :
        Turned
          (pre ++ xs)
          n
          (n + length xs)
          (sym (length-append pre xs))
          (n + (n + length xs - n) / 2)
          out
    t = reverse_part-Turned (pre ++ xs) n (n + length xs) (sym (length-append pre xs)) (omega arith)

    -- The middle of an odd part is its own mirror image.
    turned :
        (i : ℕ)
        → n ≤ i
        → i < n + length xs
        → get_or out i 0 ≡ get_or (pre ++ xs) (n + length xs - 1 - (i - n)) 0
    turned i lo hi = elim (dec_lt i (n + length xs / 2)) [
      | yes p ↦ t.swapped i lo hi (inl (omega arith))
      | no p ↦ elim (dec_lt (n + length xs - 1 - (i - n)) (n + length xs / 2)) [
        | yes q ↦ t.swapped i lo hi (inr (omega arith))
        | no q ↦
            let middle : n + length xs - 1 - (i - n) ≡ i = omega arith in
            rw middle (t.kept i (inr (omega arith, omega arith)))
      ]
    ]
