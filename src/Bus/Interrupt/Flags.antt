-- ===== src/Bus/Interrupt/Flags.antt =====
-- What an interrupt leaves alone: the transfer that is going on.
use atheros_wifi.Prelude.{
  ℕ, ◌≡◌, refl, sym, ◌∙◌, inl, inr, Bool, true, false, arith, if◌then◌else◌, Bool-cases, if-true,
  if-false, ran, IfReturns, IfReturns-bind, IfReturns-mono,
}
use mathlib.Core.Path.{subst}
use atheros_wifi.Bus.{
  a_ok, Irqs, meet, any, word, irqs_of, Custom, Bus, intr_cause_reg, write_reg, read_reg,
  mask_spi_interrupts, enable_disable_spi_irq, enable_disable_hw_detect,
}
use atheros_wifi.Bus.Watermark.{reset_write_buffer_water_mark, below_wmark}
use atheros_wifi.Bus.Interrupt.{
  access_done, masked, host_sources, resume_write, on_below_wmark, on_function_irqs, on_error,
  on_sources, on_interrupts, read_cause, finish_interrupt, bus_interrupt,
}

-- The transfer is as it was.
abbrev pub Keeps : {D : Type 0} → Bus D → Bus D → Type 0
Keeps b b' =
    (b'.dma_in_prog ≡ b.dma_in_prog)
    × (b'.dma_complete ≡ b.dma_complete)
    × (b'.irq_mask ≡ b.irq_mask)

Keeps-trans : {D : Type 0} (a b c : Bus D) → Keeps a b → Keeps b c → Keeps a c
Keeps-trans a b c (p, q, r) (p', q', r') = (p' ∙ p, q' ∙ q, r' ∙ r)

module _ {D : Type 0} (hw : Custom D) where
  masked_if : (c : Bool) (b : Bus D) (mask : Irqs) → Keeps b (if c then masked hw b mask else b)
  unfolding mask_spi_interrupts
  masked_if true b mask = (refl, refl, refl)
  masked_if false b mask = (refl, refl, refl)

  reset-Keeps : (b : Bus D) → Keeps b (reset_write_buffer_water_mark hw b).1
  unfolding reset_write_buffer_water_mark
  reset-Keeps b = ground arith

  resume_write-Keeps : (b : Bus D) → Keeps b (resume_write hw b).1
  unfolding resume_write reset_write_buffer_water_mark
  resume_write-Keeps b = ground arith

  on_below_wmark-Keeps : (b : Bus D) (seen : Irqs) → Keeps b (on_below_wmark hw b seen).1
  unfolding on_below_wmark mask_spi_interrupts
  on_below_wmark-Keeps b seen =
      let h = resume_write-Keeps (masked hw b below_wmark) in ground (arith, h)

  on_function_irqs-Keeps : (b : Bus D) (seen : Irqs) → Keeps b (on_function_irqs hw b seen)
  unfolding on_function_irqs mask_spi_interrupts
  on_function_irqs-Keeps b seen = ground arith

  on_sources-Keeps : (b : Bus D) (seen : Irqs) → Keeps b (on_sources hw b seen).2
  unfolding on_sources
  on_sources-Keeps b seen =
      let c = any (meet access_done seen) in
      let b1 = if c then masked hw b access_done else b in
      let b2 = (on_below_wmark hw b1 seen).1 in
      let first : Keeps b b1 = masked_if c b access_done in
      let second : Keeps b1 b2 = on_below_wmark-Keeps b1 seen in
      let third : Keeps b2 (on_function_irqs hw b2 seen) = on_function_irqs-Keeps b2 seen in
      ground (arith, first, second, third)

  on_interrupts-Keeps : (b : Bus D) (seen : Irqs) → Keeps b (on_interrupts hw b seen).2
  unfolding on_interrupts on_error
  on_interrupts-Keeps b seen =
      let host_irqs = meet host_sources seen in
      let (status, b1) =
        if any host_irqs then write_reg hw b intr_cause_reg (word host_irqs) else (a_ok, b) in
      let first : Keeps b b1 = ground arith in
      let second : Keeps b1 (on_sources hw b1 seen).2 = on_sources-Keeps b1 seen in
      ground (arith, first, second)

  enable_Keeps :
      (b : Bus D) (enable : Bool) → IfReturns (Keeps b) (enable_disable_hw_detect hw b enable)
  unfolding enable_disable_hw_detect enable_disable_spi_irq
  enable_Keeps b enable = ground arith

  read_cause-Keeps : (b : Bus D) → Keeps b (read_cause hw b).2
  read_cause-Keeps b =
      let b1 = (read_reg hw b intr_cause_reg).2 in
      let seen = meet b1.shadow (irqs_of (read_reg hw b intr_cause_reg).1) in
      let next : Keeps b1 (on_interrupts hw b1 seen).2 = on_interrupts-Keeps b1 seen in
      ground (arith, next)

  detect_Keeps :
      (b : Bus D)
      → IfReturns (Keeps b) (if b.dma_in_prog then ran b else enable_disable_hw_detect hw b true)
  detect_Keeps b =
      let h = enable_Keeps b true in
      elim (Bool-cases b.dma_in_prog) [
        | inl y ↦
            subst (IfReturns (Keeps b)) (sym (if-true b.dma_in_prog (ran b) _ y)) (refl, refl, refl)
        | inr n ↦ subst (IfReturns (Keeps b)) (sym (if-false b.dma_in_prog (ran b) _ n)) h
      ]

  finish_Keeps :
      (b : Bus D) (status : ℕ) (notify : Bool) (m : Bus D)
      → Keeps b m
      → IfReturns (λ (_, b'). Keeps b b') (finish_interrupt hw (status, notify, m))
  finish_Keeps b status notify m h =
      IfReturns-bind (Keeps m) (λ (_, b'). Keeps b b') _ _ (detect_Keeps m)
        λ b1 h1. let h2 : Keeps b b1 = Keeps-trans b m b1 h h1 in ground (arith, h2)

  -- An interrupt leaves the flags of the transfer alone, and everything while the bus is not the
  -- driver's.
  pub bus_interrupt-Keeps :
      (b : Bus D)
      → IfReturns (λ (_, b'). Keeps b b' × (b.dma_in_prog ≡ true → b' ≡ b)) (bus_interrupt hw b)
  unfolding bus_interrupt
  bus_interrupt-Keeps b =
      let Q : Bool × Bus D → Type 0 = λ (_, b'). Keeps b b' × (b.dma_in_prog ≡ true → b' ≡ b) in
      let (status, notify, m) = read_cause hw b in
      elim (Bool-cases b.dma_in_prog) [
        | inl y ↦
            subst (IfReturns Q) (sym (if-true b.dma_in_prog (ran (true, b)) _ y))
              ((refl, refl, refl), λ _. refl)
        | inr n ↦ subst (IfReturns Q) (sym (if-false b.dma_in_prog (ran (true, b)) _ n)) (
            IfReturns-mono _ Q _ (finish_Keeps b status notify m (read_cause-Keeps b))
              λ (_, b') h. (h, λ y. absurd (ground arith)))
      ]
