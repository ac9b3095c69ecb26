-- ===== src/Scsi/Ready.antt =====
-- The bounded wait for a BusLogic adapter in kernel/scsi.c.
use hueos.Base.{
  ℕ, zero, suc, ◌+◌, ◌<◌, ◌≤◌, ◌≡◌, ◌∙◌, ◌↔◌, refl, sym, arith, length, Bool, true, false,
  Bool-cases, inl, inr, is_set, bit_and,
}
use mathlib.Core.Bool.{true≢false}
use hueos.Io.{Trace, Device, inb}
use hueos.Scsi.{wait_rounds, buslogic_wait_ready}

-- The trace after `n` reads of the status register.
unfoldable pub read_times : Device → ℕ → ℕ → Trace → Trace
read_times dev io_base zero t = t
read_times dev io_base (suc n) t = read_times dev io_base n ((inb dev (io_base + 0) t).1)

-- Whether the next read finds the adapter ready.
abbrev pub ready : Device → ℕ → Trace → Bool
ready dev io_base t = is_set (bit_and (inb dev (io_base + 0) t).0 0x08)

-- A ready read that is not the next one is one of those behind it.
past :
    (dev : Device) (left io_base : ℕ) (t : Trace) (n : ℕ)
    → ready dev io_base t ≡ false
    → n < suc left
    → ready dev io_base (read_times dev io_base n t) ≡ true
    → (m : ℕ) × (m < left)
      × (ready dev io_base (read_times dev io_base m ((inb dev (io_base + 0) t).1)) ≡ true)
unfolding read_times
past dev left io_base t zero later lt r = absurd (true≢false (sym r ∙ later))
past dev left io_base t (suc n) later lt r = (n, omega arith, r)

wait_rounds-ready :
    (dev : Device) (left io_base : ℕ) (t : Trace)
    → ((wait_rounds dev left io_base t).0 ≡ true)
      ↔ ((n : ℕ) × (n < left) × (ready dev io_base (read_times dev io_base n t) ≡ true))
unfolding wait_rounds read_times
wait_rounds-ready dev zero io_base t =
    ((λ e. absurd (true≢false (sym e))), (λ (n, lt, _). absurd (omega arith)))
wait_rounds-ready dev (suc left) io_base t =
    let u : Trace = (inb dev (io_base + 0) t).1 in
    let rest = wait_rounds-ready dev left io_base u in
    elim (Bool-cases (ready dev io_base t)) [
      | inl now ↦ rw now ((λ _. (0, omega arith, now)), (λ _. refl))
      | inr later ↦ rw later (
        (λ e. let (n, lt, r) = rest.0 e in (suc n, omega arith, r)),
        (λ (n, lt, r). rest.1 (past dev left io_base t n later lt r)),
      )
    ]

-- A wait comes back after at most the given number of reads, with nothing but reads.
wait_rounds-length :
    (dev : Device) (left io_base : ℕ) (t : Trace)
    → length (wait_rounds dev left io_base t).1 ≤ length t + left
unfolding wait_rounds
wait_rounds-length dev zero io_base t = omega arith
wait_rounds-length dev (suc left) io_base t = elim (Bool-cases (ready dev io_base t)) [
  | inl now ↦ rw now (omega arith)
  | inr later ↦
      rw later (omega (arith, wait_rounds-length dev left io_base ((inb dev (io_base + 0) t).1)))
]

-- `buslogic_wait_ready` comes back after at most 10000 reads of the status register, and reports success exactly when
-- one of the next 10000 reads would find the adapter ready.
pub buslogic_wait_ready-bounded :
    (dev : Device) (io_base : ℕ) (t : Trace)
    → (((buslogic_wait_ready dev io_base t).0 ≡ true)
        ↔ ((n : ℕ) × (n < 10000) × (ready dev io_base (read_times dev io_base n t) ≡ true)))
      × (length (buslogic_wait_ready dev io_base t).1 ≤ length t + 10000)
buslogic_wait_ready-bounded dev io_base t =
    (wait_rounds-ready dev 10000 io_base t, wait_rounds-length dev 10000 io_base t)
