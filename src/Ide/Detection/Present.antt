-- ===== src/Ide/Detection/Present.antt =====
-- kernel/ide.c: which drives are there, as its detection asks for them, and what it should list.
use hueos.Base.{
  ℕ, zero, suc, ◌+◌, ◌<◌, ◌≡◌, ◌≢◌, ◌⊎◌, ◌∙◌, inl, inr, refl, sym, ap, arith, [], ◌∷◌, ◌++◌, List,
  length, get_or, for_up, for_up_inv, Option, some, none, bit_or, u8, ◌<<<◌, is_set, bit_and,
  Bool-cases,
}
use hueos.Io.{Trace, Device, last_written, inb}
use hueos.Ide.{IdeDevice, Ide, channel_at, ide_read, ide_write, wait_ready, pause}
use hueos.Ide.Detection.{wait_1ms}
use hueos.Ide.Detection.Filling.{slot}

-- The drive whose bit was last written to the register for it.
abbrev pub Selected : ℕ → ℕ → Trace → Type 0
Selected channel drive t =
    last_written t ((channel_at channel).base + 6) ≡ u8 (u8 (bit_or 0xA0 (drive <<< 4)))

-- The two bytes by which a drive shows its kind: 0 is ATA, 1 is ATAPI, which has two of them.
abbrev pub IsSignature : ℕ → ℕ → ℕ → Type 0
IsSignature kind low high =
    ((kind ≡ 0) × (low ≡ 0) × (high ≡ 0))
    ⊎ ((kind ≡ 1) × (low ≡ 0x14) × (high ≡ 0xEB))
    ⊎ ((kind ≡ 1) × (low ≡ 0x69) × (high ≡ 0x96))

-- The hardware has these drives, by channel and number, each with its kind. Where there is none, the status reads as 0
-- when it is selected; a drive that is there does not have the status 0, and shows its signature.
pub record HasDrives (dev : Device) (drives : ℕ → ℕ → Option ℕ) : Type 0 where
  pub absent :
      (c d : ℕ) (t : Trace)
      → c < 2
      → d < 2
      → drives c d ≡ none
      → Selected c d t
      → (ide_read dev c 0x07 t).0 ≡ 0
  pub present :
      (c d k : ℕ) (t : Trace)
      → c < 2
      → d < 2
      → drives c d ≡ some k
      → Selected c d t
      → (ide_read dev c 0x07 t).0 ≢ 0
  pub signature :
      (c d k : ℕ) (t : Trace)
      → c < 2
      → d < 2
      → drives c d ≡ some k
      → Selected c d t
      → IsSignature k (ide_read dev c 0x04 t).0 (ide_read dev c 0x05 (ide_read dev c 0x04 t).1).0

-- Channel, number and kind.
abbrev pub Entry : Type 0
Entry = ℕ × ℕ × ℕ

abbrev pub entry : IdeDevice → Entry
entry d = (d.channel, d.drive, d.kind)

-- The taken slots hold these drives, in this order.
pub record Lists (s : Ide) (l : List Entry) : Type 0 where
  pub slots : length s.ide_devices ≡ 4
  pub count : s.device_count ≡ length l
  pub holds : (i : ℕ) → i < length l → entry (slot s i) ≡ get_or l i (0, 0, 0)

-- What one place adds to the list, and all four in the order of the search.
abbrev pub found_at : ℕ → ℕ → Option ℕ → List Entry
found_at c d none = []
found_at c d (some k) = (c, d, k) ∷ []

abbrev pub found : (ℕ → ℕ → Option ℕ) → List Entry
found drives =
    ((found_at 0 0 (drives 0 0) ++ found_at 0 1 (drives 0 1)) ++ found_at 1 0 (drives 1 0))
    ++ found_at 1 1 (drives 1 1)

wait_1ms-written :
    (dev : Device) (c p : ℕ) (t : Trace) → last_written (wait_1ms dev c t) p ≡ last_written t p
unfolding wait_1ms last_written
wait_1ms-written dev c p t =
    for_up_inv (λ _ u. last_written u p ≡ last_written t p)
      (λ _ u. (inb dev ((channel_at c).ctrl) u).1) 1000 0 1000 t (λ j u _ _ h. h) (omega arith) refl

pub pause-written :
    (dev : Device) (c p : ℕ) (t : Trace) → last_written (pause dev c t) p ≡ last_written t p
unfolding pause for_up ide_read last_written
pause-written dev c p t = refl

pub wait_ready-written :
    (dev : Device) (fuel c p : ℕ) (t u : Trace)
    → wait_ready dev fuel c t ≡ some u
    → last_written u p ≡ last_written t p
unfolding wait_ready ide_read last_written
wait_ready-written dev zero c p t u h = cc
wait_ready-written dev (suc fuel) c p t u h =
    elim (Bool-cases (is_set (bit_and (ide_read dev c 0x07 t).0 0x80))) [
      | inl e ↦ wait_ready-written dev fuel c p (ide_read dev c 0x07 t).1 u (rw e at h)
      | inr e ↦
          let same : some (ide_read dev c 0x07 t).1 ≡ some u = rw e at h in
          ap (λ (o : Option Trace). elim o as (λ _. ℕ) [ none ↦ 0 | some v ↦ last_written v p ])
            (sym same)
    ]

pub select :
    (dev : Device) (c d : ℕ) (t : Trace)
    → c < 2
    → Selected c d (
        wait_1ms dev c (
          ide_write c 0x07 0xEC (wait_1ms dev c (ide_write c 0x06 (u8 (bit_or 0xA0 (d <<< 4))) t))))
unfolding ide_write last_written
select dev zero d t h = wait_1ms-written dev 0 0x1F6 _ ∙ wait_1ms-written dev 0 0x1F6 _
select dev (suc zero) d t h = wait_1ms-written dev 1 0x176 _ ∙ wait_1ms-written dev 1 0x176 _
select dev (suc (suc n)) d t h = absurd (omega arith)
