-- ===== src/Bus/Interrupt/Sources.antt =====
-- What becomes of each source of an interrupt.
use atheros_wifi.Prelude.{
  ℕ, ◌≡◌, refl, ap, ◌∙◌, inl, inr, Bool, true, false, ◌||◌, arith, ◌==◌, if◌then◌else◌, Bool-cases,
  if-true, if-false,
}
use atheros_wifi.Bus.{
  a_ok, Irqs, no_irqs, without, meet, any, word, Custom, Bus, do_pio_write_internal,
  do_pio_read_internal,
}
use atheros_wifi.Bus.Shadow.{Answers, IsRegister, Mirrors, mask-Mirrors}
use atheros_wifi.Bus.Watermark.{below_wmark, reset_write_buffer_water_mark}
use atheros_wifi.Bus.Interrupt.{
  access_done, pkt_avail, masked, resume_write, on_below_wmark, on_function_irqs, on_sources,
}

-- The masks of the sources that stand in a word.
abbrev picked : Bool → Irqs → Irqs
picked c m = if c then m else no_irqs

abbrev cpu_irqs : Irqs
cpu_irqs = record no_irqs { cpu_intr = true; local_cpu_intr = true }

-- The shadow once every source that was seen has been masked.
abbrev pub remaining : Irqs → Irqs → Irqs
remaining seen s = record s {
  wrbuf_below_wmark = if seen.wrbuf_below_wmark then false else s.wrbuf_below_wmark;
  rd_done = if seen.rd_done || seen.wr_done then false else s.rd_done;
  wr_done = if seen.rd_done || seen.wr_done then false else s.wr_done;
  cpu_intr = if seen.local_cpu_intr then false else s.cpu_intr;
  local_cpu_intr = if seen.local_cpu_intr then false else s.local_cpu_intr;
  pkt_avail = if seen.pkt_avail then false else s.pkt_avail;
}

abbrev pub After : {D : Type 0} → Bus D → Irqs → D → ℕ → Bus D
After b seen d space = record b {
  shadow = remaining seen b.shadow;
  write_buffer_space = space;
  write_wait = if seen.wrbuf_below_wmark then false else b.write_wait;
  cpu_interrupt = seen.local_cpu_intr || b.cpu_interrupt;
  device = d;
}

remaining_lem :
    (seen s : Irqs)
    → without (picked seen.local_cpu_intr cpu_irqs) (
        without (picked seen.pkt_avail pkt_avail) (
          without
            (picked seen.wrbuf_below_wmark below_wmark)
            (without (picked (any (meet access_done seen)) access_done) s)))
      ≡ remaining seen s
remaining_lem seen s = ground arith

module _ {D : Type 0} (hw : Custom D) (enabled : D → ℕ) (answers : Answers hw)
    (r : IsRegister hw 13 enabled) where
  resume_write_lem :
      (b : Bus D)
      → (d : D) × (space : ℕ) × (enabled d ≡ enabled b.device)
        × (resume_write hw b
            ≡ (0, record b { write_buffer_space = space; write_wait = false; device = d }))
  unfolding resume_write reset_write_buffer_water_mark
  resume_write_lem b =
      let d1 = (do_pio_read_internal hw b.device 0x200).2 in
      let d2 = (do_pio_write_internal hw d1 0x1300 0).1 in
      let w = word below_wmark in
      (
        (do_pio_write_internal hw d2 0xC00 w).1,
        (do_pio_read_internal hw b.device 0x200).1,
        r.others 12 (omega arith) refl d2 w
            ∙ r.others 19 (omega arith) refl d1 0
            ∙ r.kept 2 (omega arith) b.device,
        rw (answers.reads b.device 0x200, answers.writes d1 0x1300 0, answers.writes d2 0xC00 w)
            refl,
      )

  masked_if :
      (b : Bus D) (c : Bool) (m : Irqs)
      → Mirrors enabled b
      → (d : D) × (enabled d ≡ word (without (picked c m) b.shadow))
        × ((if c then masked hw b m else b)
            ≡ record b { shadow = without (picked c m) b.shadow; device = d })
  masked_if b true m h = mask-Mirrors hw enabled b m r
  masked_if b false m h = (b.device, h, refl)

  abbrev resumed : Bus D → ℕ × Bus D
  resumed b = if b.write_wait then resume_write hw b else (a_ok, b)

  resumed_lem :
      (b : Bus D)
      → (d : D) × (space : ℕ) × (enabled d ≡ enabled b.device)
        × (resumed b ≡ (0, record b { write_buffer_space = space; write_wait = false; device = d }))
  resumed_lem b = elim (Bool-cases b.write_wait) [
    | inl y ↦
        let (d, space, e, eq) = resume_write_lem b in
        (d, space, e, if-true b.write_wait (resume_write hw b) (a_ok, b) y ∙ eq)
    | inr n ↦ (
      b.device,
      b.write_buffer_space,
      refl,
      if-false b.write_wait (resume_write hw b) (a_ok, b) n
          ∙ ap (λ w. (0, record b { write_wait = w })) n,
    )
  ]

  on_below_wmark_lem :
      (b : Bus D) (seen : Irqs)
      → Mirrors enabled b
      → let s = without (picked seen.wrbuf_below_wmark below_wmark) b.shadow in
        let wait = if seen.wrbuf_below_wmark then false else b.write_wait in
        (d : D) × (space : ℕ) × (enabled d ≡ word s)
        × (on_below_wmark hw b seen ≡ (
          0,
          record b { shadow = s; write_buffer_space = space; write_wait = wait; device = d },
        ))
  unfolding on_below_wmark
  on_below_wmark_lem b seen h = elim (Bool-cases seen.wrbuf_below_wmark) [
    | inl y ↦
        let (d, e, eq) = mask-Mirrors hw enabled b below_wmark r in
        let (d', space, e', eq') =
          resumed_lem (record b { shadow = without below_wmark b.shadow; device = d }) in
        rw y (d', space, e' ∙ e, ap resumed eq ∙ eq')
    | inr n ↦ rw n (b.device, b.write_buffer_space, h, refl)
  ]

  on_function_irqs_lem :
      (b : Bus D) (seen : Irqs)
      → Mirrors enabled b
      → let s = without (picked seen.pkt_avail pkt_avail) b.shadow in
        let s' = without (picked seen.local_cpu_intr cpu_irqs) s in
        (d : D) × (enabled d ≡ word s')
        × (on_function_irqs hw b seen ≡ record b {
          shadow = s';
          cpu_interrupt = seen.local_cpu_intr || b.cpu_interrupt;
          device = d;
        })
  unfolding on_function_irqs
  on_function_irqs_lem b seen h =
      let (d, e, eq) = masked_if b seen.pkt_avail pkt_avail h in
      let b1 = record b {
        shadow = without (picked seen.pkt_avail pkt_avail) b.shadow;
        device = d;
      } in
      elim (Bool-cases seen.local_cpu_intr) [
        | inl y ↦
            let (d', e', eq') = mask-Mirrors hw enabled b1 cpu_irqs r in
            let set_cpu : Bus D → Bus D = λ m. record m { cpu_interrupt = true } in
            rw y (d', e', ap (λ m. set_cpu (masked hw m cpu_irqs)) eq ∙ ap set_cpu eq')
        | inr n ↦ rw n (d, e, eq)
      ]

  pub on_sources_lem :
      (b : Bus D) (seen : Irqs)
      → Mirrors enabled b
      → (d : D) × (space : ℕ) × (enabled d ≡ word (remaining seen b.shadow))
        × (on_sources hw b seen ≡ (0, seen.pkt_avail, After b seen d space))
  unfolding on_sources
  on_sources_lem b seen h =
      let c = any (meet access_done seen) in
      let (d, e, eq) = masked_if b c access_done h in
      let b1 = record b { shadow = without (picked c access_done) b.shadow; device = d } in
      let (d2, space, e2, eq2) = on_below_wmark_lem b1 seen e in
      let b2 = record b1 {
        shadow = without (picked seen.wrbuf_below_wmark below_wmark) b1.shadow;
        write_buffer_space = space;
        write_wait = if seen.wrbuf_below_wmark then false else b.write_wait;
        device = d2;
      } in
      let (d3, e3, eq3) = on_function_irqs_lem b2 seen e2 in
      let next = λ (u : ℕ × Bus D).
        if u.0 == a_ok
        then (a_ok, seen.pkt_avail, on_function_irqs hw u.1 seen)
        else (u.0, false, u.1) in
      (
        d3,
        space,
        e3 ∙ ap word (remaining_lem seen b.shadow),
        ap (λ m. next (on_below_wmark hw m seen)) eq
            ∙ ap next eq2
            ∙ ap (λ m. (0, seen.pkt_avail, m)) eq3
            ∙ ap (λ s. (0, seen.pkt_avail, record (After b seen d3 space) { shadow = s }))
                (remaining_lem seen b.shadow),
      )
