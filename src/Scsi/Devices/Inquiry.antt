-- ===== src/Scsi/Devices/Inquiry.antt =====
-- The answer of `scsi_inquiry` in kernel/scsi.c, and the entry of the table made from it.
use Prim.Native.String.{String}
use hueos.Base.{
  ℕ, ◌+◌, ◌≤◌, ◌<◌, ◌≡◌, ◌∙◌, refl, arith, inl, inr, true, Bytes, codes, length, length-set, get_or,
  set, get_or-set_self, get_or-set_ne, holds_below,
}
use hueos.Scsi.Controllers.{ScsiDevice}
use hueos.Scsi.Texts.{scsi_string_copy}
use hueos.Scsi.Texts.Read.{
  Reads, IsTrimmed, IsPadded, looks_trimmed-IsTrimmed, pads-IsPadded, copy-Reads, copy_padded-Reads,
  copy_padded_others,
}
use hueos.Scsi.Devices.{scsi_inquiry, device_entry}

-- What the inquiry leaves in a memory that begins with the structure of 36 bytes.
pub record IsAnswer (before after : Bytes) : Type 0 where
  pub kind : get_or after 0 0 ≡ 0
  pub vendor : Reads after 8 "QEMU"
  pub product : Reads after 16 "HARDDISK"
  pub revision : Reads after 32 "2.5+"
  pub behind : (p : ℕ) → 36 < p → get_or after p 0 ≡ get_or before p 0
  pub size : length after ≡ length before

qemu-IsTrimmed : IsTrimmed "QEMU"
unfolding holds_below
qemu-IsTrimmed = looks_trimmed-IsTrimmed "QEMU" refl

harddisk-IsTrimmed : IsTrimmed "HARDDISK"
unfolding holds_below
harddisk-IsTrimmed = looks_trimmed-IsTrimmed "HARDDISK" refl

version-IsTrimmed : IsTrimmed "2.5+"
unfolding holds_below
version-IsTrimmed = looks_trimmed-IsTrimmed "2.5+" refl

qemu-IsPadded : IsPadded "QEMU" "QEMU    " 8
unfolding holds_below
qemu-IsPadded = pads-IsPadded "QEMU" "QEMU    " 8 refl

harddisk-IsPadded : IsPadded "HARDDISK" "HARDDISK        " 16
unfolding holds_below
harddisk-IsPadded = pads-IsPadded "HARDDISK" "HARDDISK        " 16 refl

version-IsPadded : IsPadded "2.5+" "2.5+" 4
unfolding holds_below
version-IsPadded = pads-IsPadded "2.5+" "2.5+" 4 refl

-- A text is still there after a change of other bytes.
Reads-agree :
    (m other : Bytes) (at : ℕ) (text : String)
    → ((k : ℕ) → k ≤ length (codes text) → get_or other (at + k) 0 ≡ get_or m (at + k) 0)
    → Reads m at text
    → Reads other at text
Reads-agree m other at text same (chars, nul) =
    ((λ k lt. same k (omega arith) ∙ chars k lt), same (length (codes text)) (omega arith) ∙ nul)

module _ (before : Bytes) (room : 36 < length before) where
  header : Bytes
  header = set (set (set (set (set before 0 0x00) 1 0) 2 2) 3 2) 4 31

  -- The header ends before the texts.
  header-behind : (p : ℕ) → 4 < p → get_or header p 0 ≡ get_or before p 0
  unfolding header
  header-behind p lt =
      get_or-set_ne (set (set (set (set before 0 0x00) 1 0) 2 2) 3 2) 4 p 31 0 (omega arith)
      ∙ get_or-set_ne (set (set (set before 0 0x00) 1 0) 2 2) 3 p 2 0 (omega arith)
      ∙ get_or-set_ne (set (set before 0 0x00) 1 0) 2 p 2 0 (omega arith)
      ∙ get_or-set_ne (set before 0 0x00) 1 p 0 0 (omega arith)
      ∙ get_or-set_ne before 0 p 0x00 0 (omega arith)

  header-size : length header ≡ length before
  unfolding header
  header-size = omega (
    arith,
    length-set (set (set (set (set before 0 0x00) 1 0) 2 2) 3 2) 4 31,
    length-set (set (set (set before 0 0x00) 1 0) 2 2) 3 2,
    length-set (set (set before 0 0x00) 1 0) 2 2,
    length-set (set before 0 0x00) 1 0,
    length-set before 0 0x00,
  )

  header-kind : get_or header 0 0 ≡ 0
  unfolding header
  header-kind =
      get_or-set_ne (set (set (set (set before 0 0x00) 1 0) 2 2) 3 2) 4 0 31 0 (omega arith)
      ∙ get_or-set_ne (set (set (set before 0 0x00) 1 0) 2 2) 3 0 2 0 (omega arith)
      ∙ get_or-set_ne (set (set before 0 0x00) 1 0) 2 0 2 0 (omega arith)
      ∙ get_or-set_ne (set before 0 0x00) 1 0 0 0 (omega arith)
      ∙ get_or-set_self before 0 0x00 0 (omega arith)

  -- After the vendor, after the product, and after the revision.
  named : Bytes
  named = scsi_string_copy header 8 (codes "QEMU    ") 0 8

  described : Bytes
  described = scsi_string_copy named 16 (codes "HARDDISK        ") 0 16

  versioned : Bytes
  versioned = scsi_string_copy described 32 (codes "2.5+") 0 4

  versioned-IsAnswer : IsAnswer before versioned
  unfolding versioned described named
  versioned-IsAnswer =
      let room1 : 8 + 8 < length header = omega (arith, header-size) in
      let one =
        copy_padded_others header 8 8 "QEMU" "QEMU    " room1 qemu-IsTrimmed qemu-IsPadded in
      let qemu =
        copy_padded-Reads header 8 8 "QEMU" "QEMU    " room1 qemu-IsTrimmed qemu-IsPadded in
      let room2 : 16 + 16 < length named = omega (arith, header-size, one.0) in
      let two =
        copy_padded_others named 16 16 "HARDDISK" "HARDDISK        " room2 harddisk-IsTrimmed
          harddisk-IsPadded in
      let disk =
        copy_padded-Reads named 16 16 "HARDDISK" "HARDDISK        " room2 harddisk-IsTrimmed
          harddisk-IsPadded in
      let room3 : 32 + 4 < length described = omega (arith, header-size, one.0, two.0) in
      let three =
        copy_padded_others described 32 4 "2.5+" "2.5+" room3 version-IsTrimmed version-IsPadded in
      record {
        kind =
            three.1 0 (inl (omega arith))
            ∙ two.1 0 (inl (omega arith))
            ∙ one.1 0 (inl (omega arith))
            ∙ header-kind;
        vendor =
            Reads-agree named versioned 8 "QEMU"
              (λ k le. three.1 (8 + k) (inl (omega arith)) ∙ two.1 (8 + k) (inl (omega arith)))
              qemu;
        product =
            Reads-agree described versioned 16 "HARDDISK"
              (λ k le. three.1 (16 + k) (inl (omega arith))) disk;
        revision =
            copy_padded-Reads described 32 4 "2.5+" "2.5+" room3 version-IsTrimmed version-IsPadded;
        behind = λ p lt.
            three.1 p (inr (omega arith))
            ∙ two.1 p (inr (omega arith))
            ∙ one.1 p (inr (omega arith))
            ∙ header-behind p (omega arith);
        size = three.0 ∙ two.0 ∙ one.0 ∙ header-size;
      }

-- In a memory that goes on behind the structure the inquiry always succeeds with a disk, the vendor QEMU, the product
-- HARDDISK and the revision 2.5+, each text followed by NUL; the NUL of the revision is byte 36, the first one behind
-- the structure of 36 bytes, and no byte behind that is changed.
pub scsi_inquiry-IsAnswer :
    (controller_id target lun : ℕ) (inquiry : Bytes)
    → 36 < length inquiry
    → ((scsi_inquiry controller_id target lun inquiry).0 ≡ true)
      × IsAnswer inquiry ((scsi_inquiry controller_id target lun inquiry).1)
unfolding scsi_inquiry
scsi_inquiry-IsAnswer controller_id target lun inquiry room =
    (refl, unfold versioned described named header in versioned-IsAnswer inquiry room)

-- What the table holds for a device.
pub record IsEntry (ctrl target : ℕ) (d : ScsiDevice) : Type 0 where
  pub place : (d.controller_id ≡ ctrl) × (d.target ≡ target) × (d.lun ≡ 0) × (d.type ≡ 0)
  pub blocks : (d.block_count ≡ 204800) × (d.block_size ≡ 512)
  pub vendor : Reads d.vendor 0 "QEMU"
  pub product : Reads d.product 0 "HARDDISK"
  pub revision : Reads d.revision 0 "2.5+"

-- The arrays of an entry have the sizes that are declared.
abbrev pub Sized : ScsiDevice → Type 0
Sized d = (length d.vendor ≡ 9) × (length d.product ≡ 17) × (length d.revision ≡ 5)

pub device_entry-IsEntry :
    (ctrl target : ℕ) (stack inquiry : Bytes) (old : ScsiDevice)
    → ctrl < 256
    → IsAnswer stack inquiry
    → Sized old
    → IsEntry ctrl target (device_entry ctrl target 0 inquiry old)
unfolding device_entry
device_entry-IsEntry ctrl target stack inquiry old byte answer sizes = record {
  place = (omega arith, refl, refl, answer.kind);
  blocks = rw (answer.kind) (refl, refl);
  vendor =
      copy-Reads old.vendor 0 inquiry 8 8 "QEMU" (omega (arith, sizes.0)) (omega arith)
        qemu-IsTrimmed answer.vendor;
  product =
      copy-Reads old.product 0 inquiry 16 16 "HARDDISK" (omega (arith, sizes.1)) (omega arith)
        harddisk-IsTrimmed answer.product;
  revision =
      copy-Reads old.revision 0 inquiry 32 4 "2.5+" (omega (arith, sizes.2)) (omega arith)
        version-IsTrimmed answer.revision;
}
