-- ===== src/Serial/Sending.antt =====
-- What kernel/serial.c sends over the line.
use hueos.Base.{
  ℕ, zero, suc, ◌<◌, ◌≡◌, ◌≢◌, ==_iff, ◌∙◌, refl, sym, ap, arith, ◌∷◌, [], ◌++◌, true, Bool-cases,
  inl, inr, if◌then◌else◌, ◌==◌, Option, some, Bytes, Bool, false,
}
use mathlib.Core.List.{append-nil, append_assoc}
use hueos.Io.{
  Trace, Device, outb, out8, in8, out16, in16, out32, in32, serial_text, terminal_text,
  terminal_char, gdt_flush, idt_flush, wrmsr,
}
use hueos.Serial.{
  com1, is_transmit_empty, wait_transmit, serial_writechar, write_loop, serial_write, carry_out,
}

-- The bytes sent, the oldest first.
unfoldable pub sent : Trace → Bytes
sent [] = []
sent (out8 p v ∷ t) = let rest = sent t in if p == com1 then rest ++ v ∷ [] else rest
sent (in8 p v ∷ t) = sent t
sent (out16 p v ∷ t) = sent t
sent (in16 p v ∷ t) = sent t
sent (out32 p v ∷ t) = sent t
sent (in32 p v ∷ t) = sent t
sent (serial_text s ∷ t) = sent t
sent (terminal_text s ∷ t) = sent t
sent (terminal_char c ∷ t) = sent t
sent (gdt_flush a ∷ t) = sent t
sent (idt_flush a ∷ t) = sent t
sent (wrmsr a v ∷ t) = sent t

-- A line end is sent as CR and LF.
unfoldable pub with_cr : Bytes → Bytes
with_cr [] = []
with_cr (c ∷ text) =
    let rest = with_cr text in if c == b'\n' then b'\r' ∷ b'\n' ∷ rest else c ∷ rest

-- The trace after `n` reads of the line status.
unfoldable pub statuses : Device → ℕ → Trace → Trace
statuses dev zero t = t
statuses dev (suc n) t = statuses dev n ((is_transmit_empty dev t).1)

-- The transmitter drains: whatever happened before, one of the next `fuel` reads of the line status finds it empty.
abbrev pub Drains : Device → ℕ → Type 0
Drains dev fuel =
    (t : Trace) → (n : ℕ) × (n < fuel) × ((is_transmit_empty dev (statuses dev n t)).0 ≢ 0)

read_sends : (dev : Device) (t : Trace) → sent ((is_transmit_empty dev t).1) ≡ sent t
unfolding is_transmit_empty sent
read_sends dev t = refl

-- A run that comes back having sent this.
abbrev pub Sends : Bytes → Option Trace → Type 0
Sends text o = (u : Trace) × (o ≡ some u) × (sent u ≡ text)

wait_transmit-Sends :
    (dev : Device) (n fuel : ℕ) (t : Trace)
    → n < fuel
    → (is_transmit_empty dev (statuses dev n t)).0 ≢ 0
    → Sends (sent t) (wait_transmit dev fuel t)
unfolding wait_transmit statuses sent
wait_transmit-Sends dev n zero t lt ne = absurd (omega arith)
wait_transmit-Sends dev n (suc fuel) t lt ne =
    elim (Bool-cases ((is_transmit_empty dev t).0 == 0)) [
      | inr e ↦ ((is_transmit_empty dev t).1, rw e refl, read_sends dev t)
      | inl e ↦
          elim n
              as (λ n.
                n < suc fuel
                → (is_transmit_empty dev (statuses dev n t)).0 ≢ 0
                → Sends (sent t) (wait_transmit dev (suc fuel) t)) [
                  | zero ↦ λ _ ne. absurd (ne ((==_iff _ 0).0 e))
                  | suc m ↦ λ lt ne.
                      let (u, same, kept) =
                        wait_transmit-Sends dev m fuel ((is_transmit_empty dev t).1) (omega arith)
                          ne in
                      (u, rw e same, kept ∙ read_sends dev t)
                ]
            lt ne
    ]

put : (u : Trace) (c : ℕ) → c < 256 → sent (outb com1 c u) ≡ sent u ++ c ∷ []
unfolding sent
put u c small = ap (λ v. sent u ++ v ∷ []) (omega arith)

serial_writechar-Sends :
    (dev : Device) (fuel c : ℕ) (t : Trace)
    → Drains dev fuel
    → c < 256
    → Sends (sent t ++ c ∷ []) (serial_writechar dev fuel true c t)
unfolding serial_writechar
serial_writechar-Sends dev fuel c t drains small =
    let (n, lt, ne) = drains t in
    let (u, same, kept) = wait_transmit-Sends dev n fuel t lt ne in
    (outb com1 c u, rw same refl, put u c small ∙ ap (λ s. s ++ c ∷ []) kept)

-- A string of bytes.
abbrev pub AreBytes : Bytes → Type 0
AreBytes [] = Unit {0}
AreBytes (c ∷ text) = (c < 256) × AreBytes text

write_loop-Sends :
    (dev : Device) (fuel : ℕ) (text : Bytes) (t : Trace)
    → Drains dev fuel
    → AreBytes text
    → Sends (sent t ++ with_cr text) (write_loop dev fuel true text t)
unfolding write_loop with_cr
write_loop-Sends dev fuel [] t drains bytes = (t, refl, sym (append-nil (sent t)))
write_loop-Sends dev fuel (c ∷ text) t drains bytes = elim (Bool-cases (c == b'\n')) [
  | inl e ↦
      let (u, first, cr) = serial_writechar-Sends dev fuel b'\r' t drains (omega arith) in
      let (v, second, lf) = serial_writechar-Sends dev fuel c u drains bytes.0 in
      let (w, others, all) = write_loop-Sends dev fuel text v drains bytes.1 in
      let line : sent v ≡ sent t ++ b'\r' ∷ b'\n' ∷ [] =
        lf
        ∙ ap (λ s. s ++ c ∷ []) cr
        ∙ append_assoc (sent t) (b'\r' ∷ []) (c ∷ [])
        ∙ ap (λ d. sent t ++ b'\r' ∷ d ∷ []) ((==_iff c b'\n').0 e) in
      (
        w,
        rw (e, first, second) others,
        rw e (
            all
            ∙ ap (λ s. s ++ with_cr text) line
            ∙ append_assoc (sent t) (b'\r' ∷ b'\n' ∷ []) (with_cr text)),
      )
  | inr e ↦
      let (v, second, plain) = serial_writechar-Sends dev fuel c t drains bytes.0 in
      let (w, others, all) = write_loop-Sends dev fuel text v drains bytes.1 in
      (
        w,
        rw (e, second) others,
        rw e (
            all
            ∙ ap (λ s. s ++ with_cr text) plain
            ∙ append_assoc (sent t) (c ∷ []) (with_cr text)),
      )
]

-- On a working port whose transmitter drains, `serial_write` comes back, and it has sent the text, with a carriage
-- return before every line feed, behind what was sent before.
pub serial_write-sent :
    (dev : Device) (fuel : ℕ) (text : Bytes) (t : Trace)
    → Drains dev fuel
    → AreBytes text
    → Sends (sent t ++ with_cr text) (serial_write dev fuel true text t)
unfolding serial_write
serial_write-sent dev fuel text t drains bytes = write_loop-Sends dev fuel text t drains bytes

-- A run that comes back.
abbrev pub Returns : Option Trace → Type 0
Returns o = (u : Trace) × (o ≡ some u)

serial_writechar-Returns :
    (dev : Device) (fuel c : ℕ) (t : Trace)
    → Drains dev fuel
    → Returns (serial_writechar dev fuel true c t)
unfolding serial_writechar
serial_writechar-Returns dev fuel c t drains =
    let (n, lt, ne) = drains t in
    let (u, same, _) = wait_transmit-Sends dev n fuel t lt ne in (outb com1 c u, rw same refl)

write_loop-Returns :
    (dev : Device) (fuel : ℕ) (text : Bytes) (t : Trace)
    → Drains dev fuel
    → Returns (write_loop dev fuel true text t)
unfolding write_loop
write_loop-Returns dev fuel [] t drains = (t, refl)
write_loop-Returns dev fuel (c ∷ text) t drains = elim (Bool-cases (c == b'\n')) [
  | inl e ↦
      let (u, first) = serial_writechar-Returns dev fuel b'\r' t drains in
      let (v, second) = serial_writechar-Returns dev fuel c u drains in
      let (w, others) = write_loop-Returns dev fuel text v drains in
      (w, rw (e, first, second) others)
  | inr e ↦
      let (v, second) = serial_writechar-Returns dev fuel c t drains in
      let (w, others) = write_loop-Returns dev fuel text v drains in (w, rw (e, second) others)
]

serial_write-Returns :
    (dev : Device) (fuel : ℕ) (ready : Bool) (text : Bytes) (t : Trace)
    → Drains dev fuel
    → Returns (serial_write dev fuel ready text t)
unfolding serial_write
serial_write-Returns dev fuel false text t drains = (t, refl)
serial_write-Returns dev fuel true text t drains = write_loop-Returns dev fuel text t drains

-- If the transmitter drains, every text of a trace is sent.
pub carry_out-Returns :
    (dev : Device) (fuel : ℕ) (ready : Bool) (t : Trace)
    → Drains dev fuel
    → Returns (carry_out dev fuel ready t)
unfolding carry_out
carry_out-Returns dev fuel ready [] drains = ([], refl)
carry_out-Returns dev fuel ready (serial_text s ∷ t) drains =
    let (u, e) = carry_out-Returns dev fuel ready t drains in
    let (v, f) = serial_write-Returns dev fuel ready s u drains in (v, rw e f)
carry_out-Returns dev fuel ready (terminal_text s ∷ t) drains =
    let (u, e) = carry_out-Returns dev fuel ready t drains in (terminal_text s ∷ u, rw e refl)
carry_out-Returns dev fuel ready (terminal_char c ∷ t) drains =
    let (u, e) = carry_out-Returns dev fuel ready t drains in (terminal_char c ∷ u, rw e refl)
carry_out-Returns dev fuel ready (out8 p v ∷ t) drains =
    let (u, e) = carry_out-Returns dev fuel ready t drains in (out8 p v ∷ u, rw e refl)
carry_out-Returns dev fuel ready (in8 p v ∷ t) drains =
    let (u, e) = carry_out-Returns dev fuel ready t drains in (in8 p v ∷ u, rw e refl)
carry_out-Returns dev fuel ready (out16 p v ∷ t) drains =
    let (u, e) = carry_out-Returns dev fuel ready t drains in (out16 p v ∷ u, rw e refl)
carry_out-Returns dev fuel ready (in16 p v ∷ t) drains =
    let (u, e) = carry_out-Returns dev fuel ready t drains in (in16 p v ∷ u, rw e refl)
carry_out-Returns dev fuel ready (out32 p v ∷ t) drains =
    let (u, e) = carry_out-Returns dev fuel ready t drains in (out32 p v ∷ u, rw e refl)
carry_out-Returns dev fuel ready (in32 p v ∷ t) drains =
    let (u, e) = carry_out-Returns dev fuel ready t drains in (in32 p v ∷ u, rw e refl)
carry_out-Returns dev fuel ready (gdt_flush a ∷ t) drains =
    let (u, e) = carry_out-Returns dev fuel ready t drains in (gdt_flush a ∷ u, rw e refl)
carry_out-Returns dev fuel ready (idt_flush a ∷ t) drains =
    let (u, e) = carry_out-Returns dev fuel ready t drains in (idt_flush a ∷ u, rw e refl)
carry_out-Returns dev fuel ready (wrmsr a v ∷ t) drains =
    let (u, e) = carry_out-Returns dev fuel ready t drains in (wrmsr a v ∷ u, rw e refl)

-- What the last text of a trace puts on the line.
pub carry_out-last :
    (dev : Device) (fuel : ℕ) (ready : Bool) (text : Bytes) (t : Trace)
    → Drains dev fuel
    → AreBytes text
    → (before : Bytes) × Sends
        (before ++ (if ready then with_cr text else []))
        (carry_out dev fuel ready (serial_text text ∷ t))
unfolding carry_out serial_write
carry_out-last dev fuel false text t drains bytes =
    let (u, e) = carry_out-Returns dev fuel false t drains in
    (sent u, (u, rw e refl, sym (append-nil (sent u))))
carry_out-last dev fuel true text t drains bytes =
    let (u, e) = carry_out-Returns dev fuel true t drains in
    let (v, f, all) = write_loop-Sends dev fuel text u drains bytes in (sent u, (v, rw e f, all))
