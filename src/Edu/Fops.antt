-- ===== src/Edu/Fops.antt =====
-- The file operations and the interrupt handler of edu_driver.c. The device is a parameter: a
-- register is read by ioread32, which may change the device, and written by iowrite32.
pub mod Laws
use uio_linux_sample.Prelude.{
  ℕ, ◌+◌, ◌%◌, Bool, true, false, not, ◌||◌, Option, none, some, ◌==◌, if◌then◌else◌,
}
use uio_linux_sample.Prelude.Words.{ℤ, pos, negsuc, eqb_ℤ}

-- The device and the file's position, which the kernel passes on only if it is not negative.
pub record Open (D : Type 0) : Type 0 where
  pub device : D
  pub f_pos : ℕ

-- What a call returns, and the word it copies to the user.
pub record Answer : Type 0 where
  pub ret : ℤ
  pub kbuf : Option ℕ

pub data IrqReturn : Type 0 where
  irq_none irq_handled : IrqReturn

-- EFAULT is 14.
abbrev pub efault : ℤ
efault = negsuc 13

abbrev pub io_irq_ack : ℕ
io_irq_ack = 100

abbrev pub io_irq_status : ℕ
io_irq_status = 36

abbrev pub llseek : {D : Type 0} → ℕ → Open D → ℤ × Open D
llseek off s = (pos off, record s { f_pos = off })

module _ {D : Type 0} (ioread32 : D → ℕ → ℕ × D) (iowrite32 : D → ℕ → ℕ → D) where
  -- `faults` is the answer of copy_to_user.
  unfoldable pub read : Bool → ℕ → Open D → Answer × Open D
  read faults len s =
      let io = ioread32 s.device s.f_pos in
      if not (s.f_pos % 4 == 0) || len == 0
      then (record { ret = pos 0; kbuf = none }, s)
      else if faults
      then (record { ret = efault; kbuf = none }, record s { device = io.1 })
      else (record { ret = pos 4; kbuf = some io.0 }, record { device = io.1; f_pos = s.f_pos + 1 })

  -- The word that copy_from_user brings, `none` if it fails.
  unfoldable pub write : Option ℕ → ℕ → Open D → ℤ × Open D
  write none len s = if s.f_pos % 4 == 0 then (efault, s) else (pos len, s)
  write (some word) len s =
      if s.f_pos % 4 == 0
      then if not (len == 4)
        then (efault, s)
        else (pos len, record s { device = iowrite32 s.device s.f_pos word })
      else (pos len, s)

  -- `devi` is the number behind the pointer that request_irq was given.
  unfoldable pub irq_handler : ℤ → ℤ → D → IrqReturn × D
  irq_handler major devi d =
      let io = ioread32 d io_irq_status in
      if eqb_ℤ devi major then (irq_handled, iowrite32 io.1 io_irq_ack io.0) else (irq_none, d)
