-- ===== src/Main/Kernel/Refusal.antt =====
-- `kernel_main` of kernel/main.c with a wrong magic number.
use hueos.Base.{Bool, true, [], ◌∷◌, ◌&&◌, ltb}
use hueos.Base.{◌≡◌, Bytes}
use hueos.Main.Kernel.{Kernel}

-- What only a right magic number lets the kernel change.
pub record IsUntouched (before after : Kernel) : Type 0 where
  pub verbose : after.kernel_verbose_mode ≡ before.kernel_verbose_mode
  pub tables : after.tables ≡ before.tables
  pub memory : after.memory ≡ before.memory
  pub hyperv : after.hyperv ≡ before.hyperv
  pub cpu_info : after.cpu_info ≡ before.cpu_info
  pub ide : after.ide ≡ before.ide
  pub scsi : after.scsi ≡ before.scsi

fits_byte : Bytes → Bool
fits_byte [] = true
fits_byte (c ∷ text) = let rest = fits_byte text in ltb c 256 && rest
