-- ===== src/Bus/Interrupt/Cause.antt =====
-- The whole interrupt, from the reading of its cause.
use atheros_wifi.Prelude.{
  ℕ, ◌≡◌, refl, ap, ◌∙◌, inl, inr, Bool, true, false, arith, ◌==◌, if◌then◌else◌, Bool-cases,
  if-true, if-false, Outcome, ran, ◌>>=◌,
}
use atheros_wifi.Bus.{
  a_ok, Irqs, meet, any, word, irqs_of, Custom, Bus, intr_cause_reg, intr_enable_reg, write_reg,
  read_reg, do_pio_write_internal, do_pio_read_internal,
}
use atheros_wifi.Bus.Shadow.{Answers, IsRegister, Mirrors, on_edge, enable_detect_lem}
use atheros_wifi.Bus.Interrupt.{
  error_irqs, host_sources, Handled, on_error, on_sources, on_interrupts, read_cause,
  finish_interrupt, bus_interrupt,
}
use atheros_wifi.Bus.Interrupt.Sources.{remaining, After, on_sources_lem}

-- The sources that the target reports, of those that are enabled.
abbrev pub seen_by : {D : Type 0} → Custom D → Bus D → Irqs
seen_by hw b = meet b.shadow (irqs_of (do_pio_read_internal hw b.device intr_cause_reg).1)

abbrev pub is_error : {D : Type 0} → Custom D → Bus D → Bool
is_error hw b = any (meet error_irqs (seen_by hw b))

module _ {D : Type 0} (hw : Custom D) (enabled : D → ℕ) (answers : Answers hw)
    (r : IsRegister hw 13 enabled) where
  acknowledge : Bus D → Irqs → ℕ × Bus D
  acknowledge b seen =
      let host_irqs = meet host_sources seen in
      if any host_irqs then write_reg hw b intr_cause_reg (word host_irqs) else (a_ok, b)

  acknowledge_lem :
      (b : Bus D) (seen : Irqs)
      → (d : D) × (enabled d ≡ enabled b.device)
        × (acknowledge b seen ≡ (0, record b { device = d }))
  unfolding acknowledge
  acknowledge_lem b seen = elim (Bool-cases (any (meet host_sources seen))) [
    | inl y ↦
        let w = word (meet host_sources seen) in
        (
          _,
          r.others 12 (omega arith) refl b.device w,
          if-true _ _ _ y
              ∙ ap (λ s. (s, (write_reg hw b intr_cause_reg w).1))
                  (answers.writes b.device intr_cause_reg w),
        )
    | inr n ↦ (b.device, refl, if-false _ _ _ n)
  ]

  -- What is left to do once the word is acknowledged.
  abbrev dispatched : Irqs → ℕ × Bus D → Handled D
  dispatched seen (status, b) =
      if status == a_ok
      then (if any (meet error_irqs seen) then on_error hw b seen else on_sources hw b seen)
      else (status, false, b)

  on_error_lem :
      (b : Bus D) (seen : Irqs)
      → (d : D) × (enabled d ≡ 0)
        × (on_error hw b seen ≡ (0, false, record b { fatal_error = true; device = d }))
  unfolding on_error
  on_error_lem b seen =
      let w = word (meet error_irqs seen) in
      let d = (do_pio_write_internal hw b.device intr_cause_reg w).1 in
      ((do_pio_write_internal hw d intr_enable_reg 0).1, r.written d 0 (omega arith), refl)

  read_cause_lem :
      (b : Bus D)
      → read_cause hw b ≡ on_interrupts hw (read_reg hw b intr_cause_reg).2 (seen_by hw b)
  read_cause_lem b = rw (answers.reads b.device intr_cause_reg) refl

  abbrev Finished : Bus D → Bool → Type 0
  Finished b notify =
      let acks = if notify then 2 else b.pending_irq_acks in
      (d : D) × (enabled d ≡ (if on_edge b then word b.shadow else enabled b.device))
      × (finish_interrupt hw (0, notify, b)
          ≡ ran (true, record b { irqs_enabled = true; pending_irq_acks = acks; device = d }))

  finish_lem : (b : Bus D) (notify : Bool) → b.dma_in_prog ≡ false → Finished b notify
  finish_lem b true idle =
      let (d, e, eq) = enable_detect_lem hw enabled b answers r in
      let go : Outcome (Bus D) → Outcome (Bool × Bus D) =
        λ o. o >>= λ m. ran (true, record m { pending_irq_acks = 2 }) in
      (d, e, ap go (if-false b.dma_in_prog (ran b) _ idle) ∙ ap go eq)
  finish_lem b false idle =
      let (d, e, eq) = enable_detect_lem hw enabled b answers r in
      let go : Outcome (Bus D) → Outcome (Bool × Bus D) = λ o. o >>= λ m. ran (true, m) in
      (d, e, ap go (if-false b.dma_in_prog (ran b) _ idle) ∙ ap go eq)

  -- The interrupt of an idle bus, once its cause is read and acknowledged.
  staged :
      (b : Bus D)
      → b.dma_in_prog ≡ false
      → (d : D) × (enabled d ≡ enabled b.device)
        × (bus_interrupt hw b
            ≡ finish_interrupt hw (dispatched (seen_by hw b) (0, record b { device = d })))
  unfolding bus_interrupt on_interrupts acknowledge
  staged b idle =
      let b1 = (read_reg hw b intr_cause_reg).2 in
      let (d, e, eq) = acknowledge_lem b1 (seen_by hw b) in
      let go : Handled D → Outcome (Bool × Bus D) = λ u. finish_interrupt hw u in
      (
        d,
        e ∙ r.kept 12 (omega arith) b.device,
        if-false b.dma_in_prog (ran (true, b)) _ idle
            ∙ ap go (read_cause_lem b)
            ∙ ap (λ u. go (dispatched (seen_by hw b) u)) eq,
      )

  if_same : (c : Bool) (x : ℕ) → (if c then x else x) ≡ x
  if_same c x = ground arith

  -- On an idle bus, where the target answers, its mask is the driver's shadow of it, and it
  -- reports no enabled source of an error: `Hcd_BusInterrupt` returns true, and of the enabled
  -- sources that are reported these are masked, in the target as in the shadow: the watermark; the
  -- read and the write of a register, both if either is reported; the packet; and, where a local
  -- interrupt of the CPU is reported, it and the interrupt of the CPU. All others stay as they
  -- were, those of the CPU, its start and a counter too where they are reported without it. A
  -- packet is left to be acknowledged, a local interrupt of the CPU is remembered, and what waits
  -- for room goes on.
  pub bus_interrupt_lem :
      (b : Bus D)
      → b.dma_in_prog ≡ false
      → Mirrors enabled b
      → is_error hw b ≡ false
      → let seen = seen_by hw b in
        let acks = if seen.pkt_avail then 2 else b.pending_irq_acks in
        (d : D) × (space : ℕ) × (enabled d ≡ word (remaining seen b.shadow))
        × (bus_interrupt hw b
            ≡ ran (
              true,
              record (After b seen d space) { irqs_enabled = true; pending_irq_acks = acks },
            ))
  bus_interrupt_lem b idle h fine =
      let seen = seen_by hw b in
      let (d, e, eq) = staged b idle in
      let b1 = record b { device = d } in
      let (d2, space, e2, eq2) = on_sources_lem hw enabled answers r b1 seen (e ∙ h) in
      let b2 = After b1 seen d2 space in
      let (d3, e3, eq3) = finish_lem b2 seen.pkt_avail idle in
      let go : Handled D → Outcome (Bool × Bus D) = λ u. finish_interrupt hw u in
      (
        d3,
        space,
        e3
            ∙ ap (λ x. if on_edge b then word b2.shadow else x) e2
            ∙ if_same (on_edge b) (word b2.shadow),
        eq ∙ ap go (if-false (any (meet error_irqs seen)) (on_error hw b1 seen) _ fine ∙ eq2) ∙ eq3,
      )

  -- On an idle bus, where the target answers, an enabled source of an error that it reports is
  -- fatal, and nothing else is done with the interrupt. The target's mask ends cleared, but with
  -- edge detection it ends as the driver's shadow, in which nothing was masked.
  pub bus_interrupt-error :
      (b : Bus D)
      → b.dma_in_prog ≡ false
      → is_error hw b ≡ true
      → (d : D) × (enabled d ≡ (if on_edge b then word b.shadow else 0))
        × (bus_interrupt hw b
            ≡ ran (true, record b { fatal_error = true; irqs_enabled = true; device = d }))
  bus_interrupt-error b idle bad =
      let seen = seen_by hw b in
      let (d, e, eq) = staged b idle in
      let b1 = record b { device = d } in
      let (d2, e2, eq2) = on_error_lem b1 seen in
      let b2 = record b1 { fatal_error = true; device = d2 } in
      let (d3, e3, eq3) = finish_lem b2 false idle in
      let go : Handled D → Outcome (Bool × Bus D) = λ u. finish_interrupt hw u in
      (
        d3,
        e3 ∙ ap (λ x. if on_edge b then word b.shadow else x) e2,
        eq
            ∙ ap go (
                if-true (any (meet error_irqs seen)) (on_error hw b1 seen) (on_sources hw b1 seen)
                  bad
                ∙ eq2)
            ∙ eq3,
      )
