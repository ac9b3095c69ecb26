-- ===== src/Vesa/Modes/Prefix.antt =====
-- What kernel/vesa.c finds on a command line.
use hueos.Base.{
  ℕ, zero, suc, ◌<◌, ◌≡◌, ◌∙◌, refl, ap, arith, ◌∷◌, [], ◌++◌, Bool, true, false, ◌&&◌,
  if◌then◌else◌, ◌==◌, Option, none, some, Bytes, codes, get_or,
}
use mathlib.Core.Bool.{true≢false}
use hueos.Io.{Device}
use hueos.Terminal.{terminal_set_dimensions}
use hueos.Vesa.{Video, TextMode, text_modes}
use hueos.Vesa.Modes.{
  starts_with, find_param, find_mode, apply_mode, pick_mode, read_param, parse_resolution,
}

abbrev pub keyword : Bool → Bytes
keyword true = codes "res="
keyword false = codes "resolution="

-- No keyword starts inside `pre`, where `p` follows.
abbrev pub Quiet : Bytes → Bytes → Type 0
Quiet [] p = Unit {0}
Quiet (c ∷ pre) p =
    (starts_with (codes "res=") (c ∷ pre ++ p) ≡ false)
    × (starts_with (codes "resolution=") (c ∷ pre ++ p) ≡ false)
    × Quiet pre p

find_param-Quiet : (pre p : Bytes) → Quiet pre p → find_param (pre ++ p) ≡ find_param p
unfolding find_param
find_param-Quiet [] p h = refl
find_param-Quiet (c ∷ pre) p h = rw (h.0, h.1) (find_param-Quiet pre p h.2)

find_param-keyword : (long : Bool) (q : Bytes) → find_param (keyword long ++ q) ≡ some q
unfolding find_param
find_param-keyword true q = refl
find_param-keyword false q = refl

-- What a mode does to the terminal: 80x50 programs the hardware and leaves the dimensions of the terminal alone.
abbrev pub resized : TextMode → Video → Video
resized m s =
    if (m.width == 80) && (m.height == 50)
    then s
    else record s { term = terminal_set_dimensions m.width m.height s.term }

-- The mode of that number in the table.
abbrev pub mode_at : ℕ → TextMode
mode_at i = get_or text_modes i (record { name = []; width = 0; height = 0; vesa_mode = 0 })

find_mode-name :
    (i : ℕ) (rest : Bytes)
    → i < 6
    → find_mode ((mode_at i).name ++ rest) text_modes ≡ some (mode_at i)
unfolding find_mode
find_mode-name zero rest h = refl
find_mode-name (suc zero) rest h = refl
find_mode-name (suc (suc zero)) rest h = refl
find_mode-name (suc (suc (suc zero))) rest h = refl
find_mode-name (suc (suc (suc (suc zero)))) rest h = refl
find_mode-name (suc (suc (suc (suc (suc zero))))) rest h = refl
find_mode-name (suc (suc (suc (suc (suc (suc i)))))) rest h = absurd (omega arith)

apply_mode-term :
    (dev : Device) (i : ℕ) (s : Video)
    → i < 6
    → (apply_mode dev (mode_at i) s).term ≡ (resized (mode_at i) s).term
unfolding apply_mode
apply_mode-term dev zero s h = refl
apply_mode-term dev (suc zero) s h = refl
apply_mode-term dev (suc (suc zero)) s h = refl
apply_mode-term dev (suc (suc (suc zero))) s h = refl
apply_mode-term dev (suc (suc (suc (suc zero)))) s h = refl
apply_mode-term dev (suc (suc (suc (suc (suc zero))))) s h = refl
apply_mode-term dev (suc (suc (suc (suc (suc (suc i)))))) s h = absurd (omega arith)

-- A command line whose first `res=` or `resolution=` is followed by the name of a mode in the table selects that mode,
-- whatever stands behind the name. The terminal gets the mode's dimensions, except that 80x50 leaves them as they were.
pub parse_resolution-mode :
    (dev : Device) (pre rest : Bytes) (long : Bool) (i : ℕ) (s : Video)
    → i < 6
    → Quiet pre (keyword long ++ ((mode_at i).name ++ rest))
    → (let (found, s') =
          parse_resolution dev (some (pre ++ (keyword long ++ ((mode_at i).name ++ rest)))) s in
        (found ≡ true) × (s'.term ≡ (resized (mode_at i) s).term))
unfolding parse_resolution read_param pick_mode
parse_resolution-mode dev pre rest long i s h quiet =
    let q : Bytes = (mode_at i).name ++ rest in
    let found : find_param (pre ++ (keyword long ++ q)) ≡ some q =
      find_param-Quiet pre (keyword long ++ q) quiet ∙ find_param-keyword long q in
    let whole : parse_resolution dev (some (pre ++ (keyword long ++ q))) s
        ≡ (true, apply_mode dev (mode_at i) s) =
      ap (λ o. read_param dev o s) found ∙ ap (λ o. pick_mode dev o s) (find_mode-name i rest h) in
    (
      ap (λ (r : Bool × Video). r.0) whole,
      ap (λ (r : Bool × Video). r.1.term) whole ∙ apply_mode-term dev i s h,
    )

pick_mode-unchanged :
    (dev : Device) (o : Option TextMode) (s : Video)
    → (pick_mode dev o s).0 ≡ false
    → (pick_mode dev o s).1 ≡ s
unfolding pick_mode
pick_mode-unchanged dev none s h = refl
pick_mode-unchanged dev (some m) s h = absurd (true≢false h)

read_param-unchanged :
    (dev : Device) (o : Option Bytes) (s : Video)
    → (read_param dev o s).0 ≡ false
    → (read_param dev o s).1 ≡ s
unfolding read_param
read_param-unchanged dev none s h = refl
read_param-unchanged dev (some q) s h = pick_mode-unchanged dev (find_mode q text_modes) s h

-- A command line that selects no mode changes nothing: no port, no memory and no dimension.
parse_resolution-unchanged :
    (dev : Device) (cmdline : Option Bytes) (s : Video)
    → (parse_resolution dev cmdline s).0 ≡ false
    → (parse_resolution dev cmdline s).1 ≡ s
unfolding parse_resolution
parse_resolution-unchanged dev none s h = refl
parse_resolution-unchanged dev (some cmdline) s h =
    read_param-unchanged dev (find_param cmdline) s h
