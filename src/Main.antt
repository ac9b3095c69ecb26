-- ===== src/Main.antt =====
-- The string functions of kernel/main.c. A string is the list of its bytes before the NUL, and NULL is `none`.
pub mod Search
pub mod Kernel
use hueos.Base.{ℕ, ◌∷◌, [], Bool, true, false, if◌then◌else◌, ◌==◌, Option, none, some, Bytes}

-- `strcmp`: the two bytes of which it returns the difference, the NUL at the end of a string being 0.
unfoldable pub strcmp : Bytes → Bytes → ℕ × ℕ
strcmp [] [] = (0, 0)
strcmp [] (d ∷ s2) = (0, d)
strcmp (c ∷ s1) [] = (c, 0)
strcmp (c ∷ s1) (d ∷ s2) = let rest = strcmp s1 s2 in if c == d then rest else (c, d)

-- Whether the inner loop of `strstr_check` reaches the end of the needle.
unfoldable pub reaches_end : Bytes → Bytes → Bool
reaches_end h [] = true
reaches_end [] (c ∷ n) = false
reaches_end (d ∷ h) (c ∷ n) = let rest = reaches_end h n in if d == c then rest else false

unfoldable pub search : Bytes → Bytes → Bool
unfolding reaches_end
search [] needle = false
search (d ∷ haystack) needle =
    let rest = search haystack needle in if reaches_end (d ∷ haystack) needle then true else rest

unfoldable pub strstr_check : Option Bytes → Option Bytes → Bool
unfolding search
strstr_check none needle = false
strstr_check (some haystack) none = false
strstr_check (some haystack) (some needle) = search haystack needle
