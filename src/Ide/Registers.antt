-- ===== src/Ide/Registers.antt =====
-- Which ports `ide_write` of kernel/ide.c reaches.
use hueos.Base.{
  ℕ, zero, suc, ◌+◌, ◌-◌, ◌<◌, ◌≤◌, ◌≡◌, ◌≢◌, ◌^◌, ◌∙◌, refl, arith, u8, u16, ltb, ◌&&◌,
  if◌then◌else◌, Bool, true, false, Bool-cases, inl, inr, bit_or, ltb→lt,
}
use hueos.Io.{Trace, last_written, outb}
use hueos.Ide.{ide_write, channel_at}

-- A write to another port leaves what was last written.
outb_apart :
    (p port v : ℕ) (t : Trace) → u16 p ≢ port → last_written (outb p v t) port ≡ last_written t port
unfolding last_written
outb_apart p port v t ne = ground arith

-- The writes of `ide_write` on the channel of these ports, none of which is `ctrl`.
module _ (base ctrl : ℕ) (low : base + 8 ≤ ctrl) (high : ctrl + 4 < 2 ^ 16) where
  direct :
      (reg val : ℕ) (t : Trace)
      → reg < 256
      → last_written
          (if ltb reg 0x08
            then outb (base + reg) val t
            else if ltb reg 0x0C
            then outb (base + reg - 0x06) val t
            else if ltb reg 0x0E
            then outb (ctrl + reg - 0x0A) val t
            else if ltb reg 0x16
            then outb (base + reg - 0x0E) val t
            else t)
          ctrl
        ≡ last_written t ctrl
  direct reg val t h = elim (Bool-cases (ltb reg 0x08)) [
    | inl e ↦
        let small : reg < 0x08 = ltb→lt reg 0x08 e in
        rw e (outb_apart (base + reg) ctrl val t (omega arith))
    | inr e ↦ elim (Bool-cases (ltb reg 0x0C)) [
      | inl f ↦
          let small : reg < 0x0C = ltb→lt reg 0x0C f in
          rw (e, f) (outb_apart (base + reg - 0x06) ctrl val t (omega arith))
      | inr f ↦
          let big : 0x0C ≤ reg = ground arith in
          elim (Bool-cases (ltb reg 0x0E)) [
            | inl g ↦
                let small : reg < 0x0E = ltb→lt reg 0x0E g in
                rw (e, f, g) (outb_apart (ctrl + reg - 0x0A) ctrl val t (omega arith))
            | inr g ↦ elim (Bool-cases (ltb reg 0x16)) [
              | inl i ↦
                  let small : reg < 0x16 = ltb→lt reg 0x16 i in
                  rw (e, f, g, i) (outb_apart (base + reg - 0x0E) ctrl val t (omega arith))
              | inr i ↦ rw (e, f, g, i) refl
            ]
          ]
    ]
  ]

  -- The self-call comes first for the registers 8 to 11.
  both :
      (reg val v : ℕ) (t : Trace) (b : Bool)
      → reg < 256
      → (let u = if b then outb (ctrl + 0x0C - 0x0A) v t else t in
          last_written
            (if ltb reg 0x08
              then outb (base + reg) val u
              else if ltb reg 0x0C
              then outb (base + reg - 0x06) val u
              else if ltb reg 0x0E
              then outb (ctrl + reg - 0x0A) val u
              else if ltb reg 0x16
              then outb (base + reg - 0x0E) val u
              else u)
            ctrl
          ≡ last_written t ctrl)
  both reg val v t true h =
      direct reg val (outb (ctrl + 0x0C - 0x0A) v t) h
      ∙ outb_apart (ctrl + 0x0C - 0x0A) ctrl v t (omega arith)
  both reg val v t false h = direct reg val t h

-- No register number of 8 bits reaches the control port of its channel, on either channel and with any value:
-- `ide_write` leaves what was last written there.
pub ide_write-control :
    (channel reg val : ℕ) (t : Trace)
    → channel < 2
    → reg < 256
    → last_written (ide_write channel reg val t) ((channel_at channel).ctrl)
      ≡ last_written t ((channel_at channel).ctrl)
unfolding ide_write
ide_write-control zero reg val t hc h =
    both 0x1F0 0x3F6 (omega arith) (omega arith) reg val (u8 (bit_or 0x80 0x3F6)) t
      (ltb 0x07 reg && ltb reg 0x0C) h
ide_write-control (suc zero) reg val t hc h =
    both 0x170 0x376 (omega arith) (omega arith) reg val (u8 (bit_or 0x80 0x376)) t
      (ltb 0x07 reg && ltb reg 0x0C) h
ide_write-control (suc (suc n)) reg val t hc h = absurd (omega arith)
