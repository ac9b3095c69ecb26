-- ===== src/Vesa/Modes.antt =====
-- `parse_resolution` of kernel/vesa.c. A command line is the list of its bytes, none of them NUL; NULL is `none`.
pub mod Prefix
use hueos.Base.{
  ℕ, zero, suc, ◌∷◌, [], List, Bool, true, false, ◌&&◌, if◌then◌else◌, ◌==◌, Option, none, some,
  Bytes, codes,
}
use hueos.Io.{Device, serial_text}
use hueos.Terminal.{terminal_set_dimensions}
use hueos.Vesa.{Video, say, TextMode, text_modes, set_80x50_mode, set_132_column_mode}

-- `p[0] == 'r' && p[1] == 'e' && …`, which reads no byte behind the first that differs.
unfoldable pub starts_with : Bytes → Bytes → Bool
starts_with [] p = true
starts_with (c ∷ cs) [] = false
starts_with (c ∷ cs) (d ∷ p) = (d == c) && starts_with cs p

unfoldable pub drop : ℕ → Bytes → Bytes
drop zero p = p
drop (suc n) [] = []
drop (suc n) (c ∷ p) = drop n p

-- `res_param`
unfoldable pub find_param : Bytes → Option Bytes
unfolding starts_with drop
find_param [] = none
find_param (c ∷ p) =
    let rest = find_param p in
    if starts_with (codes "res=") (c ∷ p)
    then some (drop 4 (c ∷ p))
    else if starts_with (codes "resolution=") (c ∷ p)
    then some (drop 11 (c ∷ p))
    else rest

-- `match && *mode_name == '\0'` after the comparing loop.
unfoldable pub matches : Bytes → Bytes → Bool
matches [] param = true
matches (m ∷ mode_name) [] = false
matches (m ∷ mode_name) (c ∷ param) =
    let rest = matches mode_name param in
    if c == b' ' then false else if m == c then rest else false

unfoldable pub find_mode : Bytes → List TextMode → Option TextMode
unfolding matches
find_mode param [] = none
find_mode param (m ∷ ms) =
    let rest = find_mode param ms in if matches m.name param then some m else rest

module _ (dev : Device) where
  -- What is done with the mode that was found.
  unfoldable pub apply_mode : TextMode → Video → Video
  unfolding set_80x50_mode set_132_column_mode terminal_set_dimensions
  apply_mode m s =
      let s = say "VESA: Requested resolution: " s in
      let s = say "\n" (record s { trace = serial_text m.name ∷ s.trace }) in
      let resized = record s { term = terminal_set_dimensions m.width m.height s.term } in
      if (m.width == 80) && (m.height == 50)
      then set_80x50_mode dev s
      else if (m.width == 80) && (m.height == 25)
      then say "VESA: Already in 80x25 mode\n" resized
      else if m.width == 132
      then set_132_column_mode dev m.height s
      else (let t =
            serial_text m.name
            ∷ (say "VESA: Warning - Cannot set hardware mode for " resized).trace in
          say ", using software dimensions only\n" (record resized { trace = t }))

  -- The two searches: with NULL for the parameter, or no mode that matches, the result is 0.
  unfoldable pub pick_mode : Option TextMode → Video → Bool × Video
  unfolding apply_mode
  pick_mode none s = (false, s)
  pick_mode (some m) s = (true, apply_mode m s)

  unfoldable pub read_param : Option Bytes → Video → Bool × Video
  unfolding find_mode pick_mode
  read_param none s = (false, s)
  read_param (some res_param) s = pick_mode (find_mode res_param text_modes) s

  unfoldable pub parse_resolution : Option Bytes → Video → Bool × Video
  unfolding find_param read_param
  parse_resolution none s = (false, s)
  parse_resolution (some cmdline) s = read_param (find_param cmdline) s
