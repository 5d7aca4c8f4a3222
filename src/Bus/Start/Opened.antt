-- ===== src/Bus/Start/Opened.antt =====
-- The bus layer once it is started, and what it sees first.
use atheros_wifi.Prelude.{
  ℕ, ◌+◌, ◌*◌, ◌/◌, ◌%◌, ◌^◌, ◌≤◌, ◌<◌, min, bit_and, ◌≡◌, refl, ap, ◌∙◌, ◌≢◌, Bool, true, false,
  arith, ltb, ◌==◌, if◌then◌else◌, ==_ne, Outcome, ran, halted, ◌>>=◌,
}
use atheros_wifi.Bus.{
  a_ok, Irqs, join, word, Custom, Bus, swap16, on_ok, unmask_interrupts, do_pio_write_internal,
  do_pio_read_internal, enable_disable_hw_detect,
}
use atheros_wifi.Bus.Shadow.{Answers, IsRegister, on_edge, unmask-Mirrors, enable_detect_lem}
use atheros_wifi.Bus.Watermark.{reset_write_buffer_water_mark, below_wmark}
use atheros_wifi.Bus.Interrupt.{error_irqs}
use atheros_wifi.Bus.Start.{
  local_cpu_intr, data_width, first_config, ar4xxx_normal_clock_rate, opened, measured, hcd_init,
  assembled, get_lookahead,
}

-- The four bytes of two words of the look-ahead registers, the upper byte of each first.
abbrev pub in_order : ℕ → ℕ → ℕ
in_order first second =
    first / 256 % 256 + first % 256 * 2 ^ 8 + second / 256 % 256 * 2 ^ 16 + second % 256 * 2 ^ 24

assembled_lem : (first second : ℕ) → assembled first second ≡ in_order first second
unfolding swap16
assembled_lem first second = omega arith

-- Where the target answers: with fewer than 4 bytes to read, `Hcd_GetLookAhead` leaves the look-
-- ahead as it was; with more, the look-ahead is made of the first four, in their order, and four
-- zeros halt the driver.
get_lookahead_lem :
    {D : Type 0} (hw : Custom D) (b : Bus D)
    → Answers hw
    → let (_, available, d0) = do_pio_read_internal hw b.device 0x300 in
      let (_, first, d1) = do_pio_read_internal hw d0 0x1400 in
      let (_, second, d2) = do_pio_read_internal hw d1 0x1500 in
      let b' = record b { read_buffer_space = available } in
      (available < 4 → get_lookahead hw b ≡ ran (0, record b' { device = d0 }))
      × (4 ≤ available
          → in_order first second ≢ 0
          → get_lookahead hw b
            ≡ ran (0, record b' { lookahead = in_order first second; device = d2 }))
      × (4 ≤ available → in_order first second ≡ 0 → get_lookahead hw b ≡ halted)
unfolding get_lookahead
get_lookahead_lem hw b answers =
    let r0 = do_pio_read_internal hw b.device 0x300 in
    let r1 = do_pio_read_internal hw r0.2 0x1400 in
    let r2 = do_pio_read_internal hw r1.2 0x1500 in
    let same = assembled_lem r1.1 r2.1 in
    (
      (λ few.
          let yes' : ltb r0.1 4 ≡ true = ground arith in
          rw (answers.reads b.device 0x300, yes') refl),
      (λ more some_byte.
          let enough : ltb r0.1 4 ≡ false = ground arith in
          let nonzero : (in_order r1.1 r2.1 == 0) ≡ false =
            ==_ne (in_order r1.1 r2.1) 0 some_byte in
          rw
            (
              answers.reads b.device 0x300,
              answers.reads r0.2 0x1400,
              answers.reads r1.2 0x1500,
              enough,
              same,
              nonzero,
            )
            refl),
      (λ more none_left.
          let enough : ltb r0.1 4 ≡ false = ground arith in
          rw
            (
              answers.reads b.device 0x300,
              answers.reads r0.2 0x1400,
              answers.reads r1.2 0x1500,
              enough,
              same,
              none_left,
            )
            refl),
    )

abbrev pub first_irqs : Irqs → Irqs
first_irqs s = join local_cpu_intr (join error_irqs s)

-- What the target gives as its free space.
abbrev pub space_of : {D : Type 0} → Custom D → Bus D → ℕ × ℕ × D
space_of hw b = do_pio_read_internal hw (hw.set_clock b.device b.operational_clock) 0x200

abbrev pub started : {D : Type 0} → Bus D → D → Bus D
started b d = record b {
  write_buffer_space = 3163;
  max_write_buffer_space = 3163;
  shadow = first_irqs b.shadow;
  irqs_enabled = true;
  device = d;
}

-- The context when the target has been configured, at the first clock rate.
abbrev pub configured : {D : Type 0} → Custom D → Bus D → Bus D
configured hw b =
    let width = data_width b.capabilities in
    let config = first_config b.operational_clock width in
    let clocked = hw.set_clock b.device (min ar4xxx_normal_clock_rate b.operational_clock) in
    let delayed = hw.usec_delay clocked (b.power_up_delay * 1000) in
    record b {
      dma_data_width = width;
      config_shadow = config;
      device = (do_pio_write_internal hw delayed 0x400 config).1;
    }

module _ {D : Type 0} (hw : Custom D) (enabled : D → ℕ) (answers : Answers hw)
    (r : IsRegister hw 13 enabled) where
  opened_lem :
      (b : Bus D)
      → (d : D) × (enabled d ≡ word (first_irqs b.shadow))
        × (opened hw b
            ≡ ran (0, record b { shadow = first_irqs b.shadow; irqs_enabled = true; device = d }))
  unfolding opened
  opened_lem b =
      let (d1, e1, eq1) = unmask-Mirrors hw enabled b error_irqs r refl in
      let b1 = record b { shadow = join error_irqs b.shadow; device = d1 } in
      let (d2, e2, eq2) = unmask-Mirrors hw enabled b1 local_cpu_intr r refl in
      let b2 = record b { shadow = first_irqs b.shadow; device = d2 } in
      let (d3, e3, eq3) = enable_detect_lem hw enabled b2 answers r in
      let go : Bus D → Outcome (ℕ × Bus D) =
        λ m. (enable_disable_hw_detect hw m true >>= λ b'. ran (a_ok, b')) in
      let last : Outcome (Bus D) → Outcome (ℕ × Bus D) = λ o. o >>= λ b'. ran (a_ok, b') in
      (
        d3,
        e3
            ∙ ap (λ x. if on_edge b then word b2.shadow else x) e2
            ∙ if_same (on_edge b) (word b2.shadow),
        ap (λ m. go (unmask_interrupts hw m local_cpu_intr).1) eq1 ∙ ap go eq2 ∙ ap last eq3,
      )
    where
      if_same : (c : Bool) (x : ℕ) → (if c then x else x) ≡ x
      if_same c x = ground arith

  abbrev reset_device : D → D
  reset_device d =
      (do_pio_write_internal hw (do_pio_write_internal hw d 0x1300 0).1 0xC00 (word below_wmark)).1

  reset_lem :
      (b : Bus D)
      → reset_write_buffer_water_mark hw b ≡ (0, record b { device = reset_device b.device })
  unfolding reset_write_buffer_water_mark
  reset_lem b =
      let d = (do_pio_write_internal hw b.device 0x1300 0).1 in
      rw (answers.writes b.device 0x1300 0, answers.writes d 0xC00 (word below_wmark)) refl

  measured-exact :
      (b : Bus D)
      → (space_of hw b).1 ≡ 3163
      → (d : D) × (enabled d ≡ word (first_irqs b.shadow)) × (measured hw b ≡ ran (0, started b d))
  unfolding measured
  measured-exact b exact =
      let dC = hw.set_clock b.device b.operational_clock in
      let b1 = record b {
        write_buffer_space = 3163;
        max_write_buffer_space = 3163;
        device = (space_of hw b).2;
      } in
      let (d, e, eq) = opened_lem (record b1 { device = reset_device b1.device }) in
      let go : ℕ × Bus D → Outcome (ℕ × Bus D) = λ u. on_ok u (λ x. ran x) (opened hw) in
      (d, e, rw (answers.reads dC 0x200, exact) (ap go (reset_lem b1) ∙ eq))

  measured-other : (b : Bus D) → (space_of hw b).1 ≢ 3163 → measured hw b ≡ halted
  unfolding measured
  measured-other b other =
      let dC = hw.set_clock b.device b.operational_clock in
      let wrong : ((space_of hw b).1 == 3163) ≡ false = ==_ne (space_of hw b).1 3163 other in
      rw (answers.reads dC 0x200, wrong) refl

  init_path :
      (b : Bus D)
      → (bit_and b.capabilities 3 == 0) ≡ false
      → hcd_init hw b ≡ measured hw (configured hw b)
  unfolding hcd_init
  init_path b frames =
      let clocked = hw.set_clock b.device (min ar4xxx_normal_clock_rate b.operational_clock) in
      let delayed = hw.usec_delay clocked (b.power_up_delay * 1000) in
      rw
        (
          frames,
          answers.writes delayed 0x400
              (first_config b.operational_clock (data_width b.capabilities)),
        )
        refl

  -- Where the target answers and the host has frames of 8 or 16 bits: `Hcd_Init` returns exactly
  -- if the target reports 3163 bytes of free space. Then it succeeds, interrupts are detected, and
  -- the sources of errors and the CPU's join the enabled ones, in the target as in the shadow.
  pub hcd_init_lem :
      (b : Bus D)
      → (bit_and b.capabilities 3 == 0) ≡ false
      → ((space_of hw (configured hw b)).1 ≡ 3163
          → (d : D) × (enabled d ≡ word (first_irqs b.shadow))
            × (hcd_init hw b ≡ ran (0, started (configured hw b) d)))
        × ((space_of hw (configured hw b)).1 ≢ 3163 → hcd_init hw b ≡ halted)
  hcd_init_lem b frames =
      let path = init_path b frames in
      (
        (λ exact. let (d, e, eq) = measured-exact (configured hw b) exact in (d, e, path ∙ eq)),
        (λ other. path ∙ measured-other (configured hw b) other),
      )
