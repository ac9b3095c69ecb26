-- ===== src/Main/Search.antt =====
-- What `strcmp` and `strstr_check` of kernel/main.c find.
use mathlib.Core.Bool.{true≢false}
use hueos.Base.{
  ℕ, ◌≡◌, ◌↔◌, refl, sym, ap, ◌∷◌, [], ◌++◌, true, ◌==◌, ==_iff, Bool-cases, inl, inr, some, Bytes,
}
use hueos.Main.{reaches_end, search, strstr_check}

-- The needle at the start.
AtStart : Bytes → Bytes → Type 0
AtStart n h = (post : Bytes) × (h ≡ n ++ post)

reaches_end-AtStart : (h n : Bytes) → reaches_end h n ≡ true → AtStart n h
unfolding reaches_end AtStart
reaches_end-AtStart h [] e = (h, refl)
reaches_end-AtStart [] (c ∷ n) e = absurd (true≢false (sym e))
reaches_end-AtStart (d ∷ h) (c ∷ n) e = elim (Bool-cases (d == c)) [
  | inl same ↦
      let (post, rest) = reaches_end-AtStart h n (rw same at e) in
      (post, rw ((==_iff d c).0 same, rest) refl)
  | inr differ ↦ absurd (true≢false (sym (rw differ at e)))
]

AtStart-reaches_end : (n post : Bytes) → reaches_end (n ++ post) n ≡ true
unfolding reaches_end
AtStart-reaches_end [] post = refl
AtStart-reaches_end (c ∷ n) post = rw ((==_iff c c).1 refl) (AtStart-reaches_end n post)

found :
    (h n : Bytes) → search h n ≡ true → (pre : Bytes) × (post : Bytes) × (h ≡ pre ++ (n ++ post))
unfolding search AtStart
found [] n e = absurd (true≢false (sym e))
found (d ∷ h) n e = elim (Bool-cases (reaches_end (d ∷ h) n)) [
  | inl here ↦ let (post, same) = reaches_end-AtStart (d ∷ h) n here in ([], post, same)
  | inr later ↦
      let (pre, post, same) = found h n (rw later at e) in (d ∷ pre, post, ap (λ r. d ∷ r) same)
]

finds : (c : ℕ) (n pre post : Bytes) → search (pre ++ (c ∷ n ++ post)) (c ∷ n) ≡ true
unfolding search
finds c n [] post = rw (AtStart-reaches_end (c ∷ n) post) refl
finds c n (d ∷ pre) post = elim (Bool-cases (reaches_end (d ∷ pre ++ (c ∷ n ++ post)) (c ∷ n))) [
  | inl here ↦ rw here refl
  | inr later ↦ rw later (finds c n pre post)
]

-- `strstr_check` with a needle that is not empty returns 1 exactly when the needle stands somewhere in the haystack.
pub strstr_check-infix :
    (h : Bytes) (c : ℕ) (n : Bytes)
    → (strstr_check (some h) (some (c ∷ n)) ≡ true)
      ↔ ((pre : Bytes) × (post : Bytes) × (h ≡ pre ++ (c ∷ n ++ post)))
unfolding strstr_check
strstr_check-infix h c n = (found h (c ∷ n), (λ (pre, post, same). rw same (finds c n pre post)))
