-- ===== src/Ide/Detection/Slots.antt =====
-- kernel/ide.c: what a claim, an identification and the choice by the signature do to the list of the drives.
use hueos.Base.{
  ℕ, ◌<◌, ◌≡◌, ◌∙◌, inl, inr, refl, sym, ap, arith, [], ◌∷◌, ◌++◌, List, Bool, true, false, ◌&&◌,
  ◌||◌, ◌==◌, if◌then◌else◌, length, length-set, length-append, get_or, set, get_or-set_self,
  get_or-set_ne, get_or-append_left, get_or-append_right, dec_lt, Option, some, Ram, is_set,
}
use hueos.Io.{Trace, Device}
use hueos.Ide.{IdeDevice, Ide}
use hueos.Ide.Detection.{no_device, claim_slot, fill_slot, fill_device, identify, classify}
use hueos.Ide.Detection.Filling.{slot}
use hueos.Ide.Detection.Present.{Selected, HasDrives, Entry, entry, Lists}

-- A claim adds nothing.
pub claim_slot-Lists :
    (c d : ℕ) (s : Ide) (l : List Entry)
    → length l < 4
    → Lists s l
    → (let s' = claim_slot c d s in
        Lists s' l × ((slot s' (length l)).channel ≡ c) × ((slot s' (length l)).drive ≡ d))
unfolding claim_slot
claim_slot-Lists c d s l room h = (
  record {
    slots = length-set s.ide_devices s.device_count new ∙ h.slots;
    count = h.count;
    holds = λ i lt. ap entry (kept i lt) ∙ h.holds i lt;
  },
  ap (λ (d : IdeDevice). d.channel) mine,
  ap (λ (d : IdeDevice). d.drive) mine,
)
  where
    new : IdeDevice
    new = record (slot s s.device_count) { reserved = 0; channel = c; drive = d }

    kept :
        (i : ℕ)
        → i < length l
        → get_or (set s.ide_devices s.device_count new) i no_device ≡ slot s i
    kept i lt = get_or-set_ne s.ide_devices s.device_count i new no_device (omega (arith, h.count))

    mine : get_or (set s.ide_devices s.device_count new) (length l) no_device ≡ new
    mine = rw (sym h.count) (
        get_or-set_self s.ide_devices s.device_count new no_device
          (omega (arith, h.count, h.slots)))

-- The drive that is filled in comes last.
fill_slot-Lists :
    (c d type : ℕ) (buffer : Ram) (s : Ide) (l : List Entry)
    → length l < 4
    → Lists s l
    → (slot s (length l)).channel ≡ c
    → (slot s (length l)).drive ≡ d
    → Lists (fill_slot type buffer s) (l ++ (c, d, type) ∷ [])
unfolding fill_slot fill_device
fill_slot-Lists c d type buffer s l room h hc hd = record {
  slots = length-set s.ide_devices s.device_count new ∙ h.slots;
  count = omega (arith, h.count, length-append l ((c, d, type) ∷ []));
  holds = λ i lt. elim (dec_lt i (length l)) [
    | yes old ↦
        ap entry
          (get_or-set_ne s.ide_devices s.device_count i new no_device (omega (arith, h.count)))
        ∙ h.holds i old
        ∙ sym (get_or-append_left l ((c, d, type) ∷ []) i (0, 0, 0) old)
    | no last ↦
        let here : i ≡ length l = omega (arith, length-append l ((c, d, type) ∷ [])) in
        ap entry (mine i (here ∙ sym h.count))
        ∙ kind
        ∙ sym (get_or-append_right l ((c, d, type) ∷ []) i 0 (0, 0, 0) (omega arith))
  ];
}
  where
    new : IdeDevice
    new = fill_device type buffer (slot s s.device_count)

    mine :
        (i : ℕ)
        → i ≡ s.device_count
        → get_or (set s.ide_devices s.device_count new) i no_device ≡ new
    mine i e = rw e (
        get_or-set_self s.ide_devices s.device_count new no_device
          (omega (arith, h.count, h.slots)))

    kind : entry new ≡ (c, d, type)
    kind = rw (h.count, hc, hd) refl

-- A test that is known takes its branch.
pub taken {ℓ κ} :
    {A : Type ℓ} (P : A → Type κ) {b : Bool} (x y : A) → b ≡ true → P x → P (if b then x else y)
taken P x y e p = rw e p

pub passed {ℓ κ} :
    {A : Type ℓ} (P : A → Type κ) {b : Bool} (x y : A) → b ≡ false → P y → P (if b then x else y)
passed P x y e p = rw e p

-- The two tests of the signature.
abbrev is_atapi : ℕ → ℕ → Bool
is_atapi cl ch = (cl == 0x14 && ch == 0xEB) || (cl == 0x69 && ch == 0x96)

abbrev is_other : ℕ → ℕ → Bool
is_other cl ch = is_set cl || is_set ch || is_set 0

ata-tests : (cl ch : ℕ) → cl ≡ 0 → ch ≡ 0 → (is_atapi cl ch ≡ false) × (is_other cl ch ≡ false)
ata-tests cl ch e f = rw (e, f) (refl, refl)

atapi-test : (cl ch a b : ℕ) → cl ≡ a → ch ≡ b → is_atapi a b ≡ true → is_atapi cl ch ≡ true
atapi-test cl ch a b e f h = rw (e, f) h

identify-Lists :
    (dev : Device) (c d type : ℕ) (s : Ide) (l : List Entry)
    → length l < 4
    → Lists s l
    → (slot s (length l)).channel ≡ c
    → (slot s (length l)).drive ≡ d
    → (u : Trace) → Lists (identify dev c type s u).0 (l ++ (c, d, type) ∷ [])
unfolding identify
identify-Lists dev c d type s l room h h1 h2 u = fill_slot-Lists c d type _ s l room h h1 h2

module _ (dev : Device) (drives : ℕ → ℕ → Option ℕ) (has : HasDrives dev drives) where
  -- By its signature a drive is taken for what it is.
  pub classify-Lists :
      (c d k : ℕ) (s : Ide) (t : Trace) (l : List Entry)
      → c < 2
      → d < 2
      → length l < 4
      → drives c d ≡ some k
      → Selected c d t
      → Lists s l
      → (slot s (length l)).channel ≡ c
      → (slot s (length l)).drive ≡ d
      → Lists (classify dev c 0 s t).0 (l ++ (c, d, k) ∷ [])
  unfolding classify
  classify-Lists c d k s t l hc hd room there chosen h h1 h2 =
      let identified = λ (type : ℕ). identify-Lists dev c d type s l room h h1 h2 in
      elim (has.signature c d k t hc hd there chosen) [
        | inl (kind, low, high) ↦
            let (first, second) = ata-tests _ _ low high in
            rw kind (
              passed (λ (r : Ide × Trace). Lists r.0 (l ++ (c, d, 0) ∷ [])) _ _ first
                (passed (λ (r : Ide × Trace). Lists r.0 (l ++ (c, d, 0) ∷ [])) _ _ second
                  (identified 0 _)))
        | inr (inl (kind, low, high)) ↦ rw kind (
            taken (λ (r : Ide × Trace). Lists r.0 (l ++ (c, d, 1) ∷ [])) _ _
              (atapi-test _ _ 0x14 0xEB low high refl) (identified 1 _))
        | inr (inr (kind, low, high)) ↦ rw kind (
            taken (λ (r : Ide × Trace). Lists r.0 (l ++ (c, d, 1) ∷ [])) _ _
              (atapi-test _ _ 0x69 0x96 low high refl) (identified 1 _))
      ]
