-- ===== src/Ide/Detection/Found.antt =====
-- The detection of kernel/ide.c finds exactly the drives that are there.
use hueos.Base.{
  ℕ, suc, ◌≤◌, ◌<◌, ◌≡◌, ◌∙◌, inl, inr, refl, sym, ap, arith, [], ◌∷◌, ◌++◌, List, Bool, true,
  false, ◌==◌, ==_iff, unequal, length, length-append, for_up, for_cells, Option, some, none, ◌>>=◌,
  bit_or, u8, ◌<<<◌, Option-cases,
}
use mathlib.Core.Path.{subst}
use mathlib.Core.List.{append-nil}
use hueos.Io.{Trace, Device, last_written, to_serial}
use hueos.Ide.{Ide, ide_read, ide_write, ide_polling, pause, poll_verdict}
use hueos.Ide.Detection.{claim_slot, detect_drive, wait_1ms, ide_detect_devices}
use hueos.Ide.Detection.Filling.{Answers}
use hueos.Ide.Detection.Present.{
  Selected, HasDrives, Entry, Lists, found_at, found, wait_ready-written, pause-written, select,
}
use hueos.Ide.Detection.Slots.{claim_slot-Lists, taken, passed, classify-Lists}
use hueos.Serial.{carry_out}
use hueos.Serial.Sending.{Drains, carry_out-Returns}

length-found_at : (c d : ℕ) (o : Option ℕ) → length (found_at c d o) ≤ 1
length-found_at c d none = omega arith
length-found_at c d (some k) = omega arith

equal : (m n : ℕ) → m ≡ n → (m == n) ≡ true
equal m n e = (==_iff m n).1 e

module _ (dev : Device) (drives : ℕ → ℕ → Option ℕ) (has : HasDrives dev drives) where
  reading-Selected : (c d : ℕ) (t : Trace) → Selected c d t → Selected c d (ide_read dev c 0x07 t).1
  unfolding ide_read last_written
  reading-Selected c d t h = h

  -- A step comes back, with what stands at its place added.
  abbrev Finds : List Entry → Option (Ide × Trace) → Type 0
  Finds l o = (r : Ide × Trace) × (o ≡ some r) × Lists r.0 l

  ide_polling-Selected :
      (fuel c d : ℕ) (t : Trace)
      → c < 2
      → Answers dev fuel
      → Selected c d t
      → (u : Trace) × (ide_polling dev fuel c false t ≡ some (0, u)) × Selected c d u
  unfolding ide_polling poll_verdict
  ide_polling-Selected fuel c d t hc answers chosen =
      let (u, ready) = answers c (pause dev c t) hc in
      (
        u,
        rw ready refl,
        wait_ready-written dev fuel c _ (pause dev c t) u ready ∙ pause-written dev c _ t ∙ chosen,
      )

  detect_drive-Finds :
      (fuel c d : ℕ) (s : Ide) (t : Trace) (l : List Entry)
      → c < 2
      → d < 2
      → Answers dev fuel
      → length l < 4
      → Lists s l
      → Finds (l ++ found_at c d (drives c d)) (detect_drive dev fuel c d (s, t))
  unfolding detect_drive
  detect_drive-Finds fuel c d s t l hc hd answers room h =
      let (kept, h1, h2) = claim_slot-Lists c d s l room h in
      let chosen = select dev c d t hc in
      elim (Option-cases (drives c d)) [
        | inl e ↦
            let silent = equal _ 0 (has.absent c d _ hc hd e chosen) in
            subst (λ o. Finds (l ++ found_at c d o) (detect_drive dev fuel c d (s, t))) (sym e)
              (taken (Finds (l ++ [])) _ _ silent
                (_, refl, subst (Lists (claim_slot c d s)) (sym (append-nil l)) kept))
        | inr (k, e) ↦
            let speaks = unequal _ 0 (has.present c d k _ hc hd e chosen) in
            let (u, polled, still) =
              ide_polling-Selected fuel c d
                (ide_read dev c 0x07 (
                  wait_1ms dev c (
                    ide_write c 0x07 0xEC
                      (wait_1ms dev c (ide_write c 0x06 (u8 (bit_or 0xA0 (d <<< 4))) t))))).1
                hc answers (reading-Selected c d _ chosen) in
            subst (λ o. Finds (l ++ found_at c d o) (detect_drive dev fuel c d (s, t))) (sym e)
              (passed (Finds (l ++ (c, d, k) ∷ [])) _ _ speaks (
                rw polled (
                  _,
                  refl,
                  classify-Lists dev drives has c d k (claim_slot c d s) u l hc hd room e still kept
                      h1 h2,
                )))
      ]

  -- The same with a bound on the length of the list, for the four steps of the search.
  abbrev After : ℕ → List Entry → Option (Ide × Trace) → Type 0
  After n l o = Finds l o × (length l ≤ n)

  step-After :
      (fuel c d n : ℕ) (l : List Entry) (o : Option (Ide × Trace))
      → c < 2
      → d < 2
      → n < 4
      → Answers dev fuel
      → After n l o
      → After (suc n) (l ++ found_at c d (drives c d)) (o >>= detect_drive dev fuel c d)
  step-After fuel c d n l o hc hd room answers ((r, same, h), short) = (
    subst (λ p. Finds (l ++ found_at c d (drives c d)) (p >>= detect_drive dev fuel c d)) (sym same)
        (detect_drive-Finds fuel c d r.0 r.1 l hc hd answers (omega arith) h),
    omega (arith, length-append l (found_at c d (drives c d)), length-found_at c d (drives c d)),
  )

  found_all :
      (fuel : ℕ) (s : Ide) (t : Trace)
      → length s.ide_devices ≡ 4
      → s.device_count ≡ 0
      → Answers dev fuel
      → Finds (found drives) (ide_detect_devices dev fuel (s, t))
  unfolding ide_detect_devices for_cells for_up
  found_all fuel s t slots empty answers =
      let start : After 0 [] (some (s, to_serial "Detecting IDE devices...\n" t)) = (
        (_, refl, record { slots = slots; count = empty; holds = λ i lt. absurd (omega arith) }),
        omega arith,
      ) in
      let a = step-After fuel 0 0 0 _ _ (omega arith) (omega arith) (omega arith) answers start in
      let b = step-After fuel 0 1 1 _ _ (omega arith) (omega arith) (omega arith) answers a in
      let c = step-After fuel 1 0 2 _ _ (omega arith) (omega arith) (omega arith) answers b in
      let (r, same, h) =
        (step-After fuel 1 1 3 _ _ (omega arith) (omega arith) (omega arith) answers c).0 in
      (
        (r.0, to_serial "IDE device detection complete\n" r.1),
        ap
            (λ (o : Option (Ide × Trace)).
              o >>= λ (s, t). some (s, to_serial "IDE device detection complete\n" t))
            same,
        h,
      )

-- If the hardware has these drives, each with a status other than 0 and its signature when it is selected, and where
-- there is none the status reads as 0, and if the drives answer and the serial transmitter drains, each within the fuel,
-- then from a table of four slots with none taken the detection comes back: the taken slots hold exactly those drives,
-- each with its channel, number and type, in the order of the search. All texts for the serial port have then been sent
-- to it, whether or not the port works.
pub ide_detect_devices-Lists :
    (dev : Device) (drives : ℕ → ℕ → Option ℕ) (fuel : ℕ) (ready : Bool) (s : Ide) (t : Trace)
    → HasDrives dev drives
    → Answers dev fuel
    → Drains dev fuel
    → length s.ide_devices ≡ 4
    → s.device_count ≡ 0
    → (s' : Ide) × (u : Trace) × (all : Trace) × (ide_detect_devices dev fuel (s, t) ≡ some (s', u))
      × Lists s' (found drives)
      × (carry_out dev fuel ready u ≡ some all)
ide_detect_devices-Lists dev drives fuel ready s t has answers drains slots empty =
    let ((s', u), same, h) = found_all dev drives has fuel s t slots empty answers in
    let (all, done) = carry_out-Returns dev fuel ready u drains in (s', u, all, same, h, done)
