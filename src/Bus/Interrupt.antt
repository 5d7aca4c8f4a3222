-- ===== src/Bus/Interrupt.antt =====
-- The interrupt of the target.
pub mod Sources
pub mod Cause
pub mod Flags
use atheros_wifi.Prelude.{
  ℕ, Bool, true, false, ◌==◌, if◌then◌else◌, Outcome, ran, ◌>>=◌, ◌>>◌, assert,
}
use atheros_wifi.Bus.{
  a_ok, Irqs, no_irqs, join, meet, any, word, irqs_of, Custom, Bus, intr_cause_reg, intr_enable_reg,
  write_reg, read_reg, mask_spi_interrupts, enable_disable_hw_detect,
}
use atheros_wifi.Bus.Watermark.{wrbuf_spc_ava_reg, below_wmark, reset_write_buffer_water_mark}

-- ATH_SPI_HCD_ERROR_IRQS
abbrev pub error_irqs : Irqs
error_irqs = record no_irqs { address_error = true; wrbuf_error = true; rdbuf_error = true }

-- ATH_SPI_INTR_HOST_CTRL_ACCESS_DONE
abbrev pub access_done : Irqs
access_done = record no_irqs { rd_done = true; wr_done = true }

abbrev pub pkt_avail : Irqs
pkt_avail = record no_irqs { pkt_avail = true }

-- ATH_SPI_HCD_IRQ_SOURCES, with those of a host access.
abbrev pub host_sources : Irqs
host_sources = join access_done (join error_irqs below_wmark)

-- `MaskSPIInterrupts` where its status is not looked at.
abbrev pub masked : {D : Type 0} → Custom D → Bus D → Irqs → Bus D
masked hw b mask = (mask_spi_interrupts hw b mask).1

-- A transfer that waits for room reads how much there is, and goes on.
unfoldable pub resume_write : {D : Type 0} → Custom D → Bus D → ℕ × Bus D
resume_write hw b =
    let (status, param, b1) = read_reg hw b wrbuf_spc_ava_reg in
    if status == a_ok
    then reset_write_buffer_water_mark hw
        (record b1 { write_buffer_space = param; write_wait = false })
    else (status, b1)

unfoldable pub on_below_wmark : {D : Type 0} → Custom D → Bus D → Irqs → ℕ × Bus D
on_below_wmark hw b interrupts =
    let b1 = masked hw b below_wmark in
    if interrupts.wrbuf_below_wmark
    then (if b1.write_wait then resume_write hw b1 else (a_ok, b1))
    else (a_ok, b)

-- The sources of the function driver. The second value says whether to notify it.
unfoldable pub on_function_irqs : {D : Type 0} → Custom D → Bus D → Irqs → Bus D
on_function_irqs hw b interrupts =
    let b1 = if interrupts.pkt_avail then masked hw b pkt_avail else b in
    let cpu = record no_irqs { cpu_intr = true; local_cpu_intr = true } in
    if interrupts.local_cpu_intr then record (masked hw b1 cpu) { cpu_interrupt = true } else b1

-- The status, whether to notify the function driver, and the context.
abbrev pub Handled : Type 0 → Type 0
Handled D = ℕ × Bool × Bus D

-- An error is fatal: every source is masked in the target, whatever the shadow says.
unfoldable pub on_error : {D : Type 0} → Custom D → Bus D → Irqs → Handled D
on_error hw b interrupts =
    let b1 = (write_reg hw b intr_cause_reg (word (meet error_irqs interrupts))).1 in
    let b2 = (write_reg hw (record b1 { fatal_error = true }) intr_enable_reg 0).1 in
    (a_ok, false, b2)

unfoldable pub on_sources : {D : Type 0} → Custom D → Bus D → Irqs → Handled D
on_sources hw b interrupts =
    let b1 = if any (meet access_done interrupts) then masked hw b access_done else b in
    let (status, b2) = on_below_wmark hw b1 interrupts in
    if status == a_ok
    then (a_ok, interrupts.pkt_avail, on_function_irqs hw b2 interrupts)
    else (status, false, b2)

-- From the acknowledgement on.
unfoldable pub on_interrupts : {D : Type 0} → Custom D → Bus D → Irqs → Handled D
on_interrupts hw b interrupts =
    let host_irqs = meet host_sources interrupts in
    let (status, b1) =
      if any host_irqs then write_reg hw b intr_cause_reg (word host_irqs) else (a_ok, b) in
    if status == a_ok
    then (if any (meet error_irqs interrupts)
        then on_error hw b1 interrupts
        else on_sources hw b1 interrupts)
    else (status, false, b1)

abbrev pub read_cause : {D : Type 0} → Custom D → Bus D → Handled D
read_cause hw b =
    let (status, cause, b1) = read_reg hw b intr_cause_reg in
    if status == a_ok
    then on_interrupts hw b1 (meet b1.shadow (irqs_of cause))
    else (status, false, b1)

abbrev pub finish_interrupt : {D : Type 0} → Custom D → Handled D → Outcome (Bool × Bus D)
finish_interrupt hw (status, notify, b) = do
  b1 ← if b.dma_in_prog then ran b else enable_disable_hw_detect hw b true
  let b2 = if notify then record b1 { pending_irq_acks = 2 } else b1
  assert (status == a_ok)
  ran (true, b2)

-- `Hcd_BusInterrupt`. While the DMA engine owns the bus, the interrupt stays pending.
unfoldable pub bus_interrupt : {D : Type 0} → Custom D → Bus D → Outcome (Bool × Bus D)
bus_interrupt hw b = if b.dma_in_prog then ran (true, b) else finish_interrupt hw (read_cause hw b)
