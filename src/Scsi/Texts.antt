-- ===== src/Scsi/Texts.antt =====
-- `scsi_string_copy` of kernel/scsi.c. A pointer to characters is a buffer and the index in it that it points to; a
-- write behind the end of the buffer that is modelled is lost.
pub mod Copied
pub mod Read
use hueos.Base.{ℕ, zero, suc, ◌+◌, ◌||◌, if◌then◌else◌, ◌==◌, is_set, Bytes, get_or, set}

-- `for (i = 0; i < length && src[i]; i++) dest[i] = src[i];`, with the rounds that are left: the count at the end, and
-- the destination.
unfoldable pub copy_rounds : ℕ → ℕ → Bytes → ℕ → Bytes → ℕ → ℕ × Bytes
copy_rounds zero i dest to src from = (i, dest)
copy_rounds (suc left) i dest to src from =
    let c = get_or src (from + i) 0 in
    let rest = copy_rounds left (suc i) (set dest (to + i) c) to src from in
    if is_set c then rest else (i, dest)

-- `for (i = length - 1; i >= 0; i--)`: spaces and NULs become NULs, until another byte is met.
unfoldable pub trim_blanks : ℕ → Bytes → ℕ → Bytes
trim_blanks zero dest to = dest
trim_blanks (suc i) dest to =
    let rest = trim_blanks i (set dest (to + i) 0) to in
    let c = get_or dest (to + i) 0 in if (c == b' ') || (c == 0) then rest else dest

unfoldable pub scsi_string_copy : Bytes → ℕ → Bytes → ℕ → ℕ → Bytes
unfolding copy_rounds trim_blanks
scsi_string_copy dest to src from length =
    let (i, dest) = copy_rounds length 0 dest to src from in
    trim_blanks length (set dest (to + i) 0) to
