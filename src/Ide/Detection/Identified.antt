-- ===== src/Ide/Detection/Identified.antt =====
-- What the detection of kernel/ide.c records of a drive's identification data.
use hueos.Base.{
  ℕ, zero, suc, ◌+◌, ◌*◌, ◌/◌, ◌%◌, ◌^◌, ◌≤◌, ◌<◌, ◌≡◌, ◌≢◌, ◌∙◌, refl, sym, ap, arith, ◌==◌,
  if◌then◌else◌, is_set, bit_and, bit_and-field, get_or, length, get_or-set_self, get_or-set_ne,
  Ram, load, load-lt, for_up,
}
use mathlib.Core.Path.{subst}
use hueos.Io.{Trace, Device}
use hueos.Ide.{IdeDevice, Ide, channel_at, read_word, ide_read_buffer}
use hueos.Ide.Names.{byte_of, ide_string_copy-text}
use hueos.Ide.Sectors.Transfer.{drained, word_read, read_words-Read}
use hueos.Ide.Detection.{no_device, words_at, fill_device, fill_slot, identify}
use hueos.Ide.Detection.Filling.{slot}

-- The letters of the model's name: two in each of the words from 27 on, the first in the high byte.
abbrev pub letter : (ℕ → ℕ) → ℕ → ℕ
letter w j = if j % 2 == 0 then w (27 + j / 2) / 256 % 256 else w (27 + j / 2) % 256

-- The device has what the words of the identification data say, at the numbers that the ATA standard gives them; the
-- size in sectors counts only if bit 10 of word 83 is set. The name is without its trailing spaces.
pub record IsIdentified (w : ℕ → ℕ) (type : ℕ) (old new : IdeDevice) : Type 0 where
  pub place : (new.channel ≡ old.channel) × (new.drive ≡ old.drive)
  pub kind : new.kind ≡ type
  pub signature : new.signature ≡ w 0
  pub capabilities : new.capabilities ≡ w 49
  pub command_sets : new.command_sets ≡ w 82 + w 83 * 2 ^ 16
  pub size : new.size ≡ (if w 83 / 2 ^ 10 % 2 == 1 then w 60 + w 61 * 2 ^ 16 else 0)
  pub name : (k j : ℕ) → k ≤ j → j < 40 → letter w j ≢ b' ' → get_or new.model k 0 ≡ letter w k
  pub blank :
      (k : ℕ) → k < 40 → ((j : ℕ) → k ≤ j → j < 40 → letter w j ≡ b' ') → get_or new.model k 0 ≡ 0
  pub ends : get_or new.model 40 0 ≡ 0

load-halves : (ram : Ram) (a : ℕ) → load 4 ram a ≡ load 2 ram a + load 2 ram (suc (suc a)) * 2 ^ 16
unfolding load
load-halves ram a = omega arith

words_at-load :
    (n : ℕ) (ram : Ram) (a i : ℕ) → i < n → get_or (words_at n ram a) i 0 ≡ load 2 ram (a + 2 * i)
unfolding words_at
words_at-load zero ram a i lt = absurd (omega arith)
words_at-load (suc n) ram a zero lt = ap (load 2 ram) (omega arith)
words_at-load (suc n) ram a (suc i) lt =
    words_at-load n ram (a + 2) i (omega arith) ∙ ap (load 2 ram) (omega arith)

-- Bit 26 of two words is bit 10 of the second.
bit_26 :
    (lo hi : ℕ)
    → lo < 2 ^ 16
    → is_set (bit_and (lo + hi * 2 ^ 16) (2 ^ 26)) ≡ (hi / 2 ^ 10 % 2 == 1)
bit_26 lo hi small = ground (arith, bit_and-field 26 1 (lo + hi * 2 ^ 16))

module _ (w : ℕ → ℕ) (buffer : Ram) (read : (k : ℕ) → k < 256 → load 2 buffer (2 * k) ≡ w k) where
  letters : (j : ℕ) → j < 40 → byte_of (words_at 20 buffer (2 * 27)) j ≡ letter w j
  unfolding byte_of
  letters j lt =
      let word : get_or (words_at 20 buffer (2 * 27)) (j / 2) 0 ≡ w (27 + j / 2) =
        words_at-load 20 buffer (2 * 27) (j / 2) (omega arith)
        ∙ ap (load 2 buffer) (omega arith)
        ∙ read (27 + j / 2) (omega arith) in
      ap (λ v. if j % 2 == 0 then v / 256 % 256 else v % 256) word

  pair : (k : ℕ) → suc k < 256 → load 4 buffer (2 * k) ≡ w k + w (suc k) * 2 ^ 16
  pair k lt =
      let second : load 2 buffer (suc (suc (2 * k))) ≡ w (suc k) =
        ap (load 2 buffer) (omega arith) ∙ read (suc k) lt in
      omega (arith, load-halves buffer (2 * k), read k (omega arith), second)

  fill_device-IsIdentified :
      (type : ℕ) (old : IdeDevice)
      → 40 < length old.model
      → IsIdentified w type old (fill_device type buffer old)
  unfolding fill_device
  fill_device-IsIdentified type old room =
      let text = λ (k : ℕ) (lt : k < 40).
        ide_string_copy-text old.model (words_at 20 buffer (2 * 27)) 20 k room lt in
      record {
        place = (refl, refl);
        kind = refl;
        signature = read 0 (omega arith);
        capabilities = read 49 (omega arith);
        command_sets = pair 82 (omega arith);
        size =
            let sets : load 4 buffer 164 ≡ w 82 + w 83 * 2 ^ 16 = pair 82 (omega arith) in
            let small : w 82 < 2 ^ 16 =
              omega (arith, read 82 (omega arith), load-lt 2 buffer 164) in
            rw (sets, bit_26 (w 82) (w 83) small, pair 60 (omega arith)) refl;
        name = λ k j p q ne.
            (text k (omega arith)).0 j p q (λ e. ne (sym (letters j q) ∙ e))
            ∙ letters k (omega arith);
        blank = λ k lt spaces. (text k lt).1 (λ j p q. letters j q ∙ spaces j p q);
        ends = (text 0 (omega arith)).2;
      }

  fill_slot-IsIdentified :
      (type : ℕ) (s : Ide)
      → s.device_count < length s.ide_devices
      → 40 < length (slot s s.device_count).model
      → (let s' = fill_slot type buffer s in
          IsIdentified w type (slot s s.device_count) (slot s' s.device_count)
          × (s'.device_count ≡ suc s.device_count)
          × ((i : ℕ) → i ≢ s.device_count → slot s' i ≡ slot s i))
  unfolding fill_slot
  fill_slot-IsIdentified type s room long =
      let old : IdeDevice = slot s s.device_count in
      let new : IdeDevice = fill_device type buffer old in
      (
        subst (IsIdentified w type old)
            (sym (get_or-set_self s.ide_devices s.device_count new no_device room))
            (fill_device-IsIdentified type old long),
        omega arith,
        λ i ne. get_or-set_ne s.ide_devices s.device_count i new no_device (λ e. ne (sym e)),
      )

-- When a drive is identified, and the table has a place left with room for a name of 40 letters and its NUL, that
-- place takes what the drive's 256 words of data say, in the order in which the data port gives them; the places
-- before and behind it stay as they are, and exactly these words are read.
pub identify-IsIdentified :
    (dev : Device) (channel type : ℕ) (s : Ide) (t : Trace)
    → s.device_count < length s.ide_devices
    → 40 < length (slot s s.device_count).model
    → (let (s', t') = identify dev channel type s t in
        let port = (channel_at channel).base in
        IsIdentified
          (λ k. word_read dev port k t)
          type
          (slot s s.device_count)
          (slot s' s.device_count)
        × (s'.device_count ≡ suc s.device_count)
        × ((i : ℕ) → i ≢ s.device_count → slot s' i ≡ slot s i)
        × (t' ≡ drained dev port 256 t))
unfolding identify ide_read_buffer
identify-IsIdentified dev channel type s t room long =
    let port : ℕ = (channel_at channel).base in
    let base : port + 0 ≡ port = omega arith in
    let (same, words, _) = read_words-Read dev port 0 256 (λ _. 0) t in
    let buffer : Ram = (for_up 256 0 (read_word dev port 0) ((λ _. 0), t)).0 in
    let read = λ (k : ℕ) (lt : k < 256). (ap (load 2 buffer) (omega arith) ∙ words k lt) in
    let (filled, count, others) =
      fill_slot-IsIdentified (λ k. word_read dev port k t) buffer read type s room long in
    rw base (filled, count, others, same)
