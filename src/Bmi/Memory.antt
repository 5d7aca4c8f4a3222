-- ===== src/Bmi/Memory.antt =====
-- Reads and writes of the memory of a target that follows include/bmi_msg.h.
use atheros_wifi.Prelude.{ℕ, ◌+◌, ◌-◌, ◌^◌, ◌<◌, ◌≡◌, refl, false, some, arith, Mem}
use mathlib.Core.Path.{subst}
use atheros_wifi.Bmi.Copy.{IsCopy}
use atheros_wifi.Bmi.Loops.{IsTarget, Avoids, rounded, write_loop_lem}
use atheros_wifi.Bmi.{Channel, Bmi, write_memory}

module _ {D : Type 0} (ch : Channel D) (mem_of : D → Mem) (IsReady : D → Type 0)
    (law : IsTarget ch mem_of IsReady) where
  at_start : (a n : ℕ) → a + (n - n) ≡ a
  at_start a n = omega arith

  -- Where BMI is not done, the target follows the document and waits for a command, and the range,
  -- rounded up to whole words, ends below 2 ^ 32 and leaves out 0x1234, the address of segmented
  -- writes: `BMIWriteMemory` ends, with the length as fuel enough, and returns A_OK; the target
  -- has the bytes of the buffer, and up to three behind it for the rounding, and no other byte of
  -- its memory has changed.
  pub write_memory_lem :
      (m : Mem) (b : Bmi D) (address buffer len : ℕ)
      → b.bmi_done ≡ false
      → IsReady b.target
      → address + rounded len < 2 ^ 32
      → Avoids address (rounded len)
      → (b' : Bmi D) × (write_memory ch m b address buffer len ≡ some (0, b'))
        × (b'.bmi_done ≡ false)
        × IsReady b'.target
        × IsCopy (mem_of b.target) (mem_of b'.target) address (rounded len) m buffer
  unfolding write_memory
  write_memory_lem m b address buffer len on ready fits away =
      let (d', path, next, copy) =
        write_loop_lem ch mem_of IsReady law m buffer len len address len b.target ready
          (omega arith) (omega arith) fits away in
      (
        record b { target = d' },
        simp (on, path) refl,
        on,
        next,
        subst (λ a. IsCopy (mem_of b.target) (mem_of d') address (rounded len) m a)
            (at_start buffer len) copy,
      )
