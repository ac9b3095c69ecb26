-- ===== src/Ide/Polling.antt =====
-- The waiting loops of kernel/ide.c: when they end, and what the poll reports.
use hueos.Base.{
  ℕ, zero, suc, ◌<◌, ◌≡◌, refl, ap, Bool-cases, inl, inr, arith, Bool, true, false, is_set, bit_and,
  if◌then◌else◌, none, some,
}
use hueos.Io.{Trace, Device}
use hueos.Ide.{ide_read, wait_ready, ide_polling, poll_verdict, pause}

-- The trace after `n` reads of the status register.
unfoldable pub polled : Device → ℕ → ℕ → Trace → Trace
polled dev channel zero t = t
polled dev channel (suc n) t = polled dev channel n ((ide_read dev channel 0x07 t).1)

-- Whether the next read of the status register has the busy bit.
abbrev pub busy : Device → ℕ → Trace → Bool
busy dev channel t = is_set (bit_and ((ide_read dev channel 0x07 t).0) 0x80)

-- The drive is busy for `n` reads, and no longer.
abbrev pub BusyFor : Device → ℕ → ℕ → Trace → Type 0
BusyFor dev channel n t =
    ((k : ℕ) → k < n → busy dev channel (polled dev channel k t) ≡ true)
    × (busy dev channel (polled dev channel n t) ≡ false)

-- A drive that is busy for `n` reads of the status register ends the wait: any fuel above `n` gives the trace of
-- exactly `n + 1` reads.
pub wait_ready-BusyFor :
    (dev : Device) (channel n fuel : ℕ) (t : Trace)
    → n < fuel
    → BusyFor dev channel n t
    → wait_ready dev fuel channel t ≡ some (polled dev channel (suc n) t)
unfolding wait_ready polled
wait_ready-BusyFor dev channel n zero t lt h = absurd (omega arith)
wait_ready-BusyFor dev channel zero (suc fuel) t lt h = rw h.1 refl
wait_ready-BusyFor dev channel (suc n) (suc fuel) t lt h = rw (h.0 0 (omega arith)) (
    wait_ready-BusyFor dev channel n fuel ((ide_read dev channel 0x07 t).1) (omega arith)
      ((λ k lt'. h.0 (suc k) (omega arith)), h.1))

-- A drive that stays busy holds the kernel: no number of reads ends the wait.
wait_ready-stuck :
    (dev : Device) (channel fuel : ℕ) (t : Trace)
    → ((k : ℕ) → busy dev channel (polled dev channel k t) ≡ true)
    → wait_ready dev fuel channel t ≡ none
unfolding wait_ready polled
wait_ready-stuck dev channel zero t h = refl
wait_ready-stuck dev channel (suc fuel) t h =
    rw (h 0) (wait_ready-stuck dev channel fuel ((ide_read dev channel 0x07 t).1) (λ k. h (suc k)))

-- What the status that follows the wait says, for the error, fault and request bits.
unfoldable pub report : ℕ → ℕ
report state =
    if is_set (bit_and state 0x01)
    then 2
    else if is_set (bit_and state 0x20)
    then 1
    else if is_set (bit_and state 0x08)
    then 0
    else 3

poll_verdict-report :
    (dev : Device) (t t' : Trace) (state : ℕ)
    → poll_verdict dev true t (state, t') ≡ (report state, t')
unfolding poll_verdict report
poll_verdict-report dev t t' state = elim (Bool-cases (is_set (bit_and state 0x01))) [
  | inl e ↦ rw e refl
  | inr e ↦ elim (Bool-cases (is_set (bit_and state 0x20))) [
    | inl f ↦ rw (e, f) refl
    | inr f ↦ elim (Bool-cases (is_set (bit_and state 0x08))) [
      | inl g ↦ rw (e, f, g) refl
      | inr g ↦ rw (e, f, g) refl
    ]
  ]
]

poll_verdict-plain :
    (dev : Device) (t : Trace) (s : ℕ × Trace) → poll_verdict dev false t s ≡ (0, t)
unfolding poll_verdict
poll_verdict-plain dev t s = refl

-- The poll of a drive that is busy for `n` reads ends. The plain one reports 0; the advanced one reads the status once
-- more and reports 2 on an error, else 1 on a device fault, else 0 if the drive asks for data and 3 if not.
pub ide_polling-BusyFor :
    (dev : Device) (channel n fuel : ℕ) (t : Trace)
    → n < fuel
    → BusyFor dev channel n (pause dev channel t)
    → (ide_polling dev fuel channel false t
        ≡ some (0, polled dev channel (suc n) (pause dev channel t)))
      × (ide_polling dev fuel channel true t ≡ (
          let (state, u) =
            ide_read dev channel 0x07 (polled dev channel (suc n) (pause dev channel t)) in
          some (report state, u)))
unfolding ide_polling
ide_polling-BusyFor dev channel n fuel t lt h =
    let ready = wait_ready-BusyFor dev channel n fuel (pause dev channel t) lt h in
    let u : Trace = polled dev channel (suc n) (pause dev channel t) in
    (
      rw ready (ap some (poll_verdict-plain dev u (ide_read dev channel 0x07 u))),
      rw ready (
          ap some (
            poll_verdict-report dev u ((ide_read dev channel 0x07 u).1)
              ((ide_read dev channel 0x07 u).0))),
    )
