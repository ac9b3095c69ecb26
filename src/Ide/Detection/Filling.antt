-- ===== src/Ide/Detection/Filling.antt =====
-- What the detection of kernel/ide.c leaves in the table of devices.
use hueos.Base.{
  ℕ, suc, ◌+◌, ◌*◌, ◌≤◌, ◌<◌, ◌≡◌, refl, sym, ap, ◌∙◌, arith, Option, some, ◌>>=◌, Bool, true,
  false, get_or, set, length, length-set, get_or-set_self, get_or-set_ne, dec_lt, if◌then◌else◌,
  for_cells_inv, Ram,
}
use hueos.Io.{Trace, Device, to_serial}
use hueos.Ide.{IdeDevice, Ide, ide_polling, wait_ready, pause, ide_read, poll_verdict}
use hueos.Ide.Detection.{
  no_device, claim_slot, fill_slot, fill_device, identify, classify, detect_drive,
  ide_detect_devices,
}

abbrev pub slot : Ide → ℕ → IdeDevice
slot s k = get_or s.ide_devices k no_device

-- The place of a drive in the order of the search.
abbrev pub place : IdeDevice → ℕ
place d = d.channel * 2 + d.drive

-- The taken slots hold drives of the two channels, of the two known kinds, each later in the order of the search than
-- the one before and all before `bound`.
pub record IsFilled (bound : ℕ) (s : Ide) : Type 0 where
  pub slots : length s.ide_devices ≡ 4
  pub count : s.device_count ≤ bound
  pub exists :
      (k : ℕ)
      → k < s.device_count
      → ((slot s k).channel < 2) × ((slot s k).drive < 2) × ((slot s k).kind ≤ 1)
  pub before : (k : ℕ) → k < s.device_count → place (slot s k) < bound
  pub order : (j k : ℕ) → j < k → k < s.device_count → place (slot s j) < place (slot s k)

-- The next slot is claimed for a drive.
abbrev Claimed : ℕ → ℕ → ℕ → Ide → Type 0
Claimed bound channel drive s =
    IsFilled bound s
    × ((slot s s.device_count).channel ≡ channel)
    × ((slot s s.device_count).drive ≡ drive)

claim_slot-Claimed :
    (bound channel drive : ℕ) (s : Ide)
    → bound < 4
    → IsFilled bound s
    → Claimed bound channel drive (claim_slot channel drive s)
unfolding claim_slot
claim_slot-Claimed bound channel drive s room h = (
  record {
    slots = length-set s.ide_devices s.device_count new ∙ h.slots;
    count = h.count;
    exists = λ k lt. rw (kept k lt) (h.exists k lt);
    before = λ k lt. rw (kept k lt) (h.before k lt);
    order = λ j k p q. rw (kept j (omega arith), kept k q) (h.order j k p q);
  },
  ap (λ (d : IdeDevice). d.channel) mine,
  ap (λ (d : IdeDevice). d.drive) mine,
)
  where
    new : IdeDevice
    new = record (slot s s.device_count) { reserved = 0; channel = channel; drive = drive }

    kept :
        (k : ℕ)
        → k < s.device_count
        → get_or (set s.ide_devices s.device_count new) k no_device ≡ slot s k
    kept k lt = get_or-set_ne s.ide_devices s.device_count k new no_device (omega arith)

    mine : get_or (set s.ide_devices s.device_count new) s.device_count no_device ≡ new
    mine =
        get_or-set_self s.ide_devices s.device_count new no_device (omega (arith, h.count, h.slots))

-- A slot that is taken with a device for the claimed drive.
take_slot-IsFilled :
    (new : IdeDevice) (s : Ide)
    → new.channel < 2
    → new.drive < 2
    → new.kind ≤ 1
    → place new < 4
    → IsFilled (place new) s
    → IsFilled (suc (place new)) (record {
      ide_devices = set s.ide_devices s.device_count new;
      device_count = s.device_count + 1;
    })
take_slot-IsFilled new s hc hd ht room h = record {
  slots = length-set s.ide_devices s.device_count new ∙ h.slots;
  count = omega (arith, h.count);
  exists = λ k lt. elim (dec_lt k s.device_count) [
    | yes old ↦ rw (kept k old) (h.exists k old)
    | no last ↦ rw (mine k (omega arith)) (hc, hd, ht)
  ];
  before = λ k lt. elim (dec_lt k s.device_count) [
    | yes old ↦ rw (kept k old) (omega (arith, h.before k old))
    | no last ↦ rw (mine k (omega arith)) (omega arith)
  ];
  order = λ j k p q. elim (dec_lt k s.device_count) [
    | yes old ↦ rw (kept j (omega arith), kept k old) (h.order j k p old)
    | no last ↦ rw (kept j (omega arith), mine k (omega arith)) (h.before j (omega arith))
  ];
}
  where
    kept :
        (k : ℕ)
        → k < s.device_count
        → get_or (set s.ide_devices s.device_count new) k no_device ≡ slot s k
    kept k lt = get_or-set_ne s.ide_devices s.device_count k new no_device (omega arith)

    mine :
        (k : ℕ)
        → k ≡ s.device_count
        → get_or (set s.ide_devices s.device_count new) k no_device ≡ new
    mine k e = rw e (
        get_or-set_self s.ide_devices s.device_count new no_device
          (omega (arith, h.count, h.slots)))

fill_device-place :
    (type : ℕ) (buffer : Ram) (old : IdeDevice)
    → (let new = fill_device type buffer old in
        (new.channel ≡ old.channel) × (new.drive ≡ old.drive) × (new.kind ≡ type))
unfolding fill_device
fill_device-place type buffer old = (refl, refl, refl)

fill_slot-IsFilled :
    (channel drive type : ℕ) (buffer : Ram) (s : Ide)
    → channel < 2
    → drive < 2
    → type ≤ 1
    → Claimed (channel * 2 + drive) channel drive s
    → IsFilled (suc (channel * 2 + drive)) (fill_slot type buffer s)
unfolding fill_slot
fill_slot-IsFilled channel drive type buffer s hc hd ht (h, c, d) =
    let new : IdeDevice = fill_device type buffer (slot s s.device_count) in
    let (c', d', k') = fill_device-place type buffer (slot s s.device_count) in
    let here : place new ≡ channel * 2 + drive = omega (arith, c, d, c', d') in
    rw (sym here) (
      take_slot-IsFilled new s (omega (arith, c, c')) (omega (arith, d, d')) (omega (arith, k'))
        (omega (arith, here)) (rw here h))

-- What both branches have, the test has.
branches {ℓ κ} :
    {A : Type ℓ} (P : A → Type κ) (b : Bool) (x y : A) → P x → P y → P (if b then x else y)
branches P true x y p q = p
branches P false x y p q = q

later-IsFilled : (bound : ℕ) (s : Ide) → IsFilled bound s → IsFilled (suc bound) s
later-IsFilled bound s h = record {
  slots = h.slots;
  count = omega (arith, h.count);
  exists = h.exists;
  before = λ k lt. omega (arith, h.before k lt);
  order = h.order;
}

classify-IsFilled :
    (dev : Device) (channel drive err : ℕ) (s : Ide) (t : Trace)
    → channel < 2
    → drive < 2
    → Claimed (channel * 2 + drive) channel drive s
    → IsFilled (suc (channel * 2 + drive)) ((classify dev channel err s t).0)
unfolding classify identify
classify-IsFilled dev channel drive err s t hc hd claimed =
    branches (λ (r : Ide × Trace). IsFilled (suc (channel * 2 + drive)) r.0) _ _ _
      (fill_slot-IsFilled channel drive 1 _ s hc hd (omega arith) claimed)
      (branches (λ (r : Ide × Trace). IsFilled (suc (channel * 2 + drive)) r.0) _ _ _
        (later-IsFilled (channel * 2 + drive) s claimed.0)
        (fill_slot-IsFilled channel drive 0 _ s hc hd (omega arith) claimed))

-- The drives answer: on both channels, whatever happened before, the wait ends within the fuel.
abbrev pub Answers : Device → ℕ → Type 0
Answers dev fuel =
    (channel : ℕ) (t : Trace) → channel < 2 → (u : Trace) × (wait_ready dev fuel channel t ≡ some u)

-- The run comes back, with the table filled up to the bound.
abbrev pub Returns : ℕ → Option (Ide × Trace) → Type 0
Returns bound o = (r : Ide × Trace) × (o ≡ some r) × IsFilled bound r.0

polled-Returns :
    (dev : Device) (fuel channel drive : ℕ) (s : Ide) (t : Trace)
    → channel < 2
    → drive < 2
    → Answers dev fuel
    → Claimed (channel * 2 + drive) channel drive s
    → Returns
        (suc (channel * 2 + drive))
        (ide_polling dev fuel channel false t >>= λ (err, t). some (classify dev channel err s t))
unfolding ide_polling
polled-Returns dev fuel channel drive s t hc hd answers claimed =
    let (u, ready) = answers channel (pause dev channel t) hc in
    let (err, u') : ℕ × Trace = poll_verdict dev false u (ide_read dev channel 0x07 u) in
    (
      classify dev channel err s u',
      rw ready refl,
      classify-IsFilled dev channel drive err s u' hc hd claimed,
    )

detect_drive-Returns :
    (dev : Device) (fuel channel drive : ℕ) (s : Ide) (t : Trace)
    → channel < 2
    → drive < 2
    → Answers dev fuel
    → IsFilled (channel * 2 + drive) s
    → Returns (suc (channel * 2 + drive)) (detect_drive dev fuel channel drive (s, t))
unfolding detect_drive
detect_drive-Returns dev fuel channel drive s t hc hd answers h =
    let claimed = claim_slot-Claimed (channel * 2 + drive) channel drive s (omega arith) h in
    branches (Returns (suc (channel * 2 + drive))) _ _ _
      (_, refl, later-IsFilled (channel * 2 + drive) (claim_slot channel drive s) claimed.0)
      (polled-Returns dev fuel channel drive (claim_slot channel drive s) _ hc hd answers claimed)

-- Whatever the signatures are, the detection comes back if the drives answer within the fuel, from a table of four
-- slots with none taken; the taken slots then hold at most four places, each of the two channels and two drives, of
-- type ATA or ATAPI, in the order of the search and none of them twice.
pub ide_detect_devices-IsFilled :
    (dev : Device) (fuel : ℕ) (s : Ide) (t : Trace)
    → length s.ide_devices ≡ 4
    → s.device_count ≡ 0
    → Answers dev fuel
    → Returns 4 (ide_detect_devices dev fuel (s, t))
unfolding ide_detect_devices
ide_detect_devices-IsFilled dev fuel s t slots empty answers = finish (
    for_cells_inv Returns 2 2 (λ channel drive r. r >>= detect_drive dev fuel channel drive) start
      (λ channel drive r hc hd (p, same, h).
        rw same (detect_drive-Returns dev fuel channel drive p.0 p.1 hc hd answers h))
      (_, refl, none_taken))
  where
    start : Option (Ide × Trace)
    start = some (s, to_serial "Detecting IDE devices...\n" t)

    none_taken : IsFilled 0 s
    none_taken = record {
      slots = slots;
      count = omega arith;
      exists = λ k lt. absurd (omega arith);
      before = λ k lt. absurd (omega arith);
      order = λ j k p q. absurd (omega arith);
    }

    finish :
        {o : Option (Ide × Trace)}
        → Returns 4 o
        → Returns 4 (o >>= λ (s, t). some (s, to_serial "IDE device detection complete\n" t))
    finish (r, same, h) = ((r.0, to_serial "IDE device detection complete\n" r.1), rw same refl, h)
