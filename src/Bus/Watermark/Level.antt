-- ===== src/Bus/Watermark/Level.antt =====
-- The level of the watermark while a transfer waits.
use atheros_wifi.Prelude.{
  ℕ, ◌/◌, ◌%◌, ◌-◌, ◌^◌, ◌≤◌, ◌<◌, ◌≡◌, refl, sym, ap, ◌∙◌, inl, inr, Bool, true, false, ◌&&◌,
  arith, ltb, ◌==◌, if◌then◌else◌, Bool-cases, Outcome, ran,
}
use mathlib.Core.Path.{subst}
use atheros_wifi.Bus.{
  a_ok, a_pending, join, word, Custom, Bus, read_reg, unmask_interrupts, do_pio_write_internal,
  do_pio_read_internal,
}
use atheros_wifi.Bus.Shadow.{Answers, IsRegister, Mirrors, unmask-Mirrors}
use atheros_wifi.Bus.Watermark.{
  below_wmark, asleep, Waits, resample, doze, check_sleep, watermark_level, await,
  program_write_buffer_water_mark, reset_write_buffer_water_mark,
}

-- The state 2, of four, in the bits 1 and 2 of a reading of the status.
abbrev sleeps : ℕ → Bool
sleeps value = value / 2 % 4 == 2

-- Two readings of the status, with 60 microseconds between them, both find the target asleep.
abbrev pub sleeps_twice : {D : Type 0} → Custom D → D → Bool
sleeps_twice hw d =
    let (_, first, d') = do_pio_read_internal hw d 0x500 in
    let (_, second, _) = do_pio_read_internal hw (hw.usec_delay d' 60) 0x500 in
    sleeps first && sleeps second

-- The level that the space must fall below, for a transfer of `len` bytes.
abbrev pub level : {D : Type 0} → Bus D → ℕ → ℕ
level b len = if b.max_write_buffer_space == len then 1 else b.max_write_buffer_space - len

and_true : (t : Bool) → (t && true) ≡ t
and_true t = ground arith

module _ {D : Type 0} (hw : Custom D) (watermark enabled : D → ℕ) where
  -- With a target that sleeps, there is no watermark and fresh knowledge of the room; otherwise
  -- nothing has changed.
  abbrev Sampled : Bool → Bus D → Waits D → Type 0
  Sampled true b w =
      (d : D) × (space : ℕ) × (watermark d ≡ 0)
      × (enabled d ≡ enabled b.device)
      × (w ≡ (0, false, record b { write_buffer_space = space; device = d }))
  Sampled false b w =
      (d : D) × (watermark d ≡ watermark b.device)
      × (enabled d ≡ enabled b.device)
      × (w ≡ (0, true, record b { device = d }))

  -- With a target that sleeps, success, and no watermark; otherwise the driver waits for the
  -- interrupt, at the level for the transfer.
  abbrev pub Programmed : Bool → Bus D → ℕ → Outcome (ℕ × Bus D) → Type 0
  Programmed true b len o =
      (d : D) × (space : ℕ) × (watermark d ≡ 0)
      × (enabled d ≡ word b.shadow)
      × (o ≡ ran (a_ok, record b { write_buffer_space = space; device = d }))
  Programmed false b len o =
      let shadow = join below_wmark b.shadow in
      (d : D) × (watermark d ≡ level b len)
      × (enabled d ≡ word shadow)
      × (o ≡ ran (a_pending, record b { write_wait = true; shadow = shadow; device = d }))

module _ {D : Type 0} (hw : Custom D) (watermark enabled : D → ℕ) (answers : Answers hw)
    (r : IsRegister hw 19 watermark) (e : IsRegister hw 13 enabled) where
  resample_lem : (b : Bus D) → Sampled hw watermark enabled true b (resample hw b)
  unfolding resample reset_write_buffer_water_mark
  resample_lem b =
      let d1 = (do_pio_read_internal hw b.device 0x200).2 in
      let d2 = (do_pio_write_internal hw d1 0x1300 0).1 in
      let w = word below_wmark in
      (
        (do_pio_write_internal hw d2 0xC00 w).1,
        (do_pio_read_internal hw b.device 0x200).1,
        r.others 12 (omega arith) refl d2 w ∙ r.written d1 0 (omega arith),
        e.others 12 (omega arith) refl d2 w
            ∙ e.others 19 (omega arith) refl d1 0
            ∙ e.kept 2 (omega arith) b.device,
        rw (answers.reads b.device 0x200, answers.writes d1 0x1300 0, answers.writes d2 0xC00 w)
            refl,
      )

  sample_as :
      (t : Bool) (b : Bus D) (d' : D) (w w' : Waits D)
      → watermark d' ≡ watermark b.device
      → enabled d' ≡ enabled b.device
      → w ≡ w'
      → Sampled hw watermark enabled t (record b { device = d' }) w'
      → Sampled hw watermark enabled t b w
  sample_as false b d' w w' p q eq (d, p', q', eq') = (d, p' ∙ p, q' ∙ q, eq ∙ eq')
  sample_as true b d' w w' p q eq (d, space, p', q', eq') = (d, space, p', q' ∙ q, eq ∙ eq')

  -- A reading of the status that finds the target asleep goes on with `next`.
  looked :
      (b : Bus D) (t : Bool) (next : Bus D → Waits D)
      → let (_, value, d') = do_pio_read_internal hw b.device 0x500 in
        let b1 = record b { device = d' } in
        Sampled hw watermark enabled t b1 (next b1)
        → Sampled hw watermark enabled (sleeps value && t) b (
            let (status, value, b1) = read_reg hw b 0x500 in
            if status == a_ok && asleep value then next b1 else (status, true, b1))
  looked b t next h =
      let value = (do_pio_read_internal hw b.device 0x500).1 in
      let d' = (do_pio_read_internal hw b.device 0x500).2 in
      let b1 = record b { device = d' } in
      let p = r.kept 5 (omega arith) b.device in
      let q = e.kept 5 (omega arith) b.device in
      rw (answers.reads b.device 0x500) (elim (Bool-cases (sleeps value)) [
        | inl y ↦ rw y (sample_as t b d' _ _ p q refl h)
        | inr n ↦ rw n (d', p, q, refl)
      ])

  check_sleep_lem :
      (b : Bus D) → Sampled hw watermark enabled (sleeps_twice hw b.device) b (check_sleep hw b)
  unfolding check_sleep doze
  check_sleep_lem b =
      let d1 = (do_pio_read_internal hw b.device 0x500).2 in
      let d2 = hw.usec_delay d1 60 in
      let second = (do_pio_read_internal hw d2 0x500).1 in
      let dozing : Sampled hw watermark enabled (sleeps second) (record b { device = d1 })
          (doze hw (record b { device = d1 })) =
        sample_as (sleeps second) (record b { device = d1 }) d2 _ _ (r.delay d1 60) (e.delay d1 60)
          refl
          (subst
            (λ t.
              Sampled hw watermark enabled t (record b { device = d2 })
                (doze hw (record b { device = d1 })))
            (and_true (sleeps second))
            (looked (record b { device = d2 }) true (λ m. resample hw m) (resample_lem _))) in
      looked b (sleeps second) (λ m. doze hw m) dozing

  awaited :
      (t : Bool) (b : Bus D) (len : ℕ) (d1 : D) (w : Waits D)
      → watermark d1 ≡ level b len
      → enabled d1 ≡ word b.shadow
      → Sampled hw watermark enabled t (record b { device = d1 }) w
      → Programmed hw watermark enabled t b len (ran (await hw w))
  unfolding unmask_interrupts
  awaited false b len d1 w p q (d, p', q', eq) =
      let b' = record b { write_wait = true; device = d } in
      let (d2, q2, eq2) = unmask-Mirrors hw enabled b' below_wmark e refl in
      (
        d2,
        ap watermark (sym (ap (λ (x : Bus D). x.device) eq2))
            ∙ r.others 13 (omega arith) refl d (word (join below_wmark b.shadow))
            ∙ p'
            ∙ p,
        q2,
        ap (λ v. ran (await hw v)) eq ∙ ap (λ x. ran (a_pending, x)) eq2,
      )
  awaited true b len d1 w p q (d, space, p', q', eq) =
      (d, space, p', q' ∙ q, ap (λ v. ran (await hw v)) eq)

  -- Where the target answers and its mask is the driver's shadow of it, for a transfer of at least
  -- one byte that the empty buffer of fewer than 2 ^ 16 bytes has room for:
  -- `Hcd_ProgramWriteBufferWaterMark` returns. If two readings of the status, 60 microseconds
  -- apart, behind the write of the watermark both find the target asleep, the driver need not
  -- wait: the target's watermark is 0, its mask as before, and of the driver's state only its
  -- account of the room changes. Otherwise the driver waits for the interrupt of the watermark,
  -- which is enabled in the target as in the shadow, and the watermark is the size of the buffer
  -- less the transfer's, but at least 1.
  pub program_write_buffer_water_mark_lem :
      (b : Bus D) (len : ℕ)
      → 0 < len
      → len ≤ b.max_write_buffer_space
      → b.max_write_buffer_space < 2 ^ 16
      → Mirrors enabled b
      → Programmed hw watermark enabled
          (sleeps_twice hw (do_pio_write_internal hw b.device 0x1300 (level b len)).1)
          b
          len
          (program_write_buffer_water_mark hw b len)
  unfolding program_write_buffer_water_mark
  program_write_buffer_water_mark_lem b len pos le small mirrors =
      let n = level b len in
      let max = b.max_write_buffer_space in
      let exact : watermark_level max len ≡ max - len = omega arith in
      let fits : ltb (max - len) max ≡ true = ground arith in
      let same : (if max - len == 0 then 1 else max - len) ≡ n = ground arith in
      let bound : n < 2 ^ 16 = ground arith in
      let d1 = (do_pio_write_internal hw b.device 0x1300 n).1 in
      let b1 = record b { device = d1 } in
      rw (exact, fits, same, answers.writes b.device 0x1300 n)
        (awaited (sleeps_twice hw d1) b len d1 (check_sleep hw b1) (r.written b.device n bound)
          (e.others 19 (omega arith) refl b.device n ∙ mirrors) (check_sleep_lem b1))
