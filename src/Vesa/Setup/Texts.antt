-- ===== src/Vesa/Setup/Texts.antt =====
-- The texts of kernel/vesa.c, framebuffer.c, ide.c, scsi.c and hwinfo.c that are put together in buffers on the stack.
use hueos.Base.{ℕ, ◌+◌, ◌^◌, ◌≤◌, ◌<◌, ◌≡◌, ap, arith, [], ◌∷◌, ◌++◌, length, length-append, true}
use hueos.Numbers.{number_string}
use hueos.Numbers.Decimal.{decimal, append_number-decimal, number_string-decimal}
use hueos.Numbers.Lengths.{length-decimal}
use hueos.Vesa.Setup.{reasonable, dimensions_text, number_line}
use hueos.Vesa.Setup.Keeping.{reasonable-IsAccepted}

length-number_line : (val : ℕ) → length (number_line val) ≡ length (decimal val) + 1
unfolding number_line
length-number_line val =
    rw (append_number-decimal val []) (length-append (decimal val) (b'\n' ∷ []))

length-dimensions_text :
    (width height : ℕ)
    → length (dimensions_text width height) ≡ length (decimal width) + length (decimal height) + 2
unfolding dimensions_text
length-dimensions_text width height =
    let x = b'x' ∷ [] in
    let first = decimal width ++ x in
    rw (append_number-decimal width [], append_number-decimal height first)
      (omega (
        arith,
        length-append (first ++ decimal height) (b'\n' ∷ []),
        length-append first (decimal height),
        length-append (decimal width) x,
      ))

-- The texts fit into their buffers, each with its NUL: the line with a number of 32 bits into the 20 bytes of
-- `flags_buf`; such a number into the 16 bytes of the listings; the size of a screen that was found to be reasonable
-- into the 16 bytes of `detect_screen_size`; and the size that `framebuffer_init` reports into its 20 bytes, if there
-- are fewer than 10^8 columns and 10^8 rows.
pub texts_fit :
    (val width height cols rows : ℕ)
    → val < 2 ^ 32
    → reasonable width height ≡ true
    → cols < 10 ^ 8
    → rows < 10 ^ 8
    → (length (number_line val) + 1 ≤ 20)
      × (length (number_string val) + 1 ≤ 16)
      × (length (dimensions_text width height) + 1 ≤ 16)
      × (length (dimensions_text cols rows) + 1 ≤ 20)
texts_fit val width height cols rows small ok few_cols few_rows =
    let accepted = reasonable-IsAccepted width height ok in
    let digits : length (decimal val) ≤ 10 = length-decimal 10 val (omega arith) (omega arith) in
    let w : length (decimal width) ≤ 3 =
      length-decimal 3 width (omega arith) (omega (arith, accepted.wide)) in
    let h : length (decimal height) ≤ 3 =
      length-decimal 3 height (omega arith) (omega (arith, accepted.high)) in
    (
      omega (arith, length-number_line val),
      omega (arith, ap (λ s. length s) (number_string-decimal val)),
      omega (arith, length-dimensions_text width height),
      omega (
        arith,
        length-dimensions_text cols rows,
        length-decimal 8 cols (omega arith) few_cols,
        length-decimal 8 rows (omega arith) few_rows,
      ),
    )
