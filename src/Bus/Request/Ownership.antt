-- ===== src/Bus/Request/Ownership.antt =====
-- Who owns the bus after a request.
use atheros_wifi.Prelude.{
  ℕ, ◌+◌, ◌^◌, ◌≤◌, ◌<◌, ◌≡◌, refl, sym, ap, ◌∙◌, ◌≢◌, ◌⊎◌, inl, inr, Bool, true, false, arith,
  ◌==◌, if◌then◌else◌, ==_ne, Bool-cases, if-true, if-false, Outcome, ran, ◌>>=◌,
}
use mathlib.Core.Path.{subst}
use atheros_wifi.Netbuf.Buffer.{Netbuf}
use atheros_wifi.Bus.{
  a_ok, a_pending, Irqs, no_irqs, join, without, meet, any, word, Custom, Bus, intr_enable_reg,
  write_reg, on_ok, mask_spi_interrupts, unmask_interrupts, do_pio_write_internal, out_token,
}
use atheros_wifi.Bus.Shadow.{Answers, disable_detect_lem}
use atheros_wifi.Bus.Interrupt.{pkt_avail, masked}
use atheros_wifi.Bus.Transfer.{is_read, transfer_data}
use atheros_wifi.Bus.Transfer.Bytes.{Moves, total, transfer_data_lem}
use atheros_wifi.Bus.Request.{
  swap_settings, configure_byte_swap, handed_over, dma_phases, dma_address, put_back, do_dma_op,
  adjusted, submit, hcd_request,
}

-- A request of fewer than 2 ^ 16 bytes, in fewer than 255 fragments, padded by no more than a block.
abbrev pub IsRequest : {D : Type 0} → Bus D → Netbuf → Type 0
IsRequest b req =
    (req.num_frags < 255)
    × (total req < 2 ^ 16)
    × (req.trans.transfer_length ≤ total req + b.block_size)

-- What the packet interrupt was when the request came.
abbrev pub kept_mask : {D : Type 0} → Bus D → Irqs
kept_mask b = if b.shadow.pkt_avail then pkt_avail else b.irq_mask

-- While the DMA engine owns the bus, the packet interrupt is masked, and kept for the end if it
-- was enabled; otherwise all is as before.
abbrev pub Owned : {D : Type 0} → Bus D → Outcome (ℕ × Bus D) → Type 0
Owned {D = D} b o =
    ((d : D) × (o
        ≡ ran (
          a_pending,
          record b {
            dma_in_prog = true;
            irqs_enabled = false;
            shadow = without pkt_avail b.shadow;
            irq_mask = kept_mask b;
            device = d;
          },
        )))
    ⊎ ((status : ℕ) × (d : D) × (status ≢ a_pending) × (o ≡ ran (status, record b { device = d })))

-- The width is one that the bus layer knows: then the byte order can be set.
abbrev pub IsWidth : ℕ → Type 0
IsWidth w = (w ≡ 0) ⊎ ((w ≡ 1) ⊎ (w ≡ 3))

-- What `Hcd_Request` comes to where there is no fatal error and no shutdown: a write takes its
-- length and five reserved bytes from the room, and then the engine owns the bus, or all is over.
abbrev pub Requested : {D : Type 0} → Bus D → Netbuf → Outcome (ℕ × Bus D) → Type 0
Requested b req o =
    let space = adjusted b.write_buffer_space req.trans.transfer_length in
    (c : ℕ) × Owned
      (record b {
        config_shadow = c;
        write_buffer_space = if is_read req then b.write_buffer_space else space;
      })
      o

module _ {D : Type 0} (hw : Custom D) (count : D → ℕ) (answers : Answers hw)
    (m : Moves hw count) where
  -- The transfer is with the DMA engine, and the controller does not detect interrupts; or it is
  -- over, whatever its status.
  abbrev Ended : Bus D → Outcome (ℕ × Bus D) → Type 0
  Ended b o =
      ((d : D) × (o
          ≡ ran (a_pending, record b { dma_in_prog = true; irqs_enabled = false; device = d })))
      ⊎ ((status : ℕ) × (d : D) × (status ≢ a_pending)
          × (o ≡ ran (status, record b { device = d })))

  Ended-as :
      (b b' : Bus D) (o o' : Outcome (ℕ × Bus D))
      → o ≡ o'
      → ((d : D) → record b' { device = d } ≡ record b { device = d })
      → Ended b' o'
      → Ended b o
  Ended-as b b' o o' e same (inl (d, eq)) = inl (
    d,
    e
        ∙ eq
        ∙ ap
            (λ (x : Bus D).
              ran (a_pending, record x { dma_in_prog = true; irqs_enabled = false; device = d }))
            (same d),
  )
  Ended-as b b' o o' e same (inr (s, d, ne, eq)) =
      inr (s, d, ne, e ∙ eq ∙ ap (λ x. ran (s, x)) (same d))

  handed_over_lem : (b : Bus D) (status : ℕ) → Ended b (handed_over hw (status, b))
  handed_over_lem b status = elim (Bool-cases (status == a_pending)) [
    | inl y ↦
        let (d, eq) = disable_detect_lem hw (record b { dma_in_prog = true }) in
        let is : status ≡ a_pending = ground arith in
        let go : Outcome (Bus D) → Outcome (ℕ × Bus D) = λ o. o >>= λ b'. ran (status, b') in
        inl (
          d,
          if-true (status == a_pending) _ (ran (status, b)) y
              ∙ ap go eq
              ∙ ap (λ s. ran (s, record b { dma_in_prog = true; irqs_enabled = false; device = d }))
                  is,
        )
    | inr n ↦
        let not_pending : status ≢ a_pending = ground arith in
        inr (status, b.device, not_pending, if-false (status == a_pending) _ (ran (status, b)) n)
  ]

  dma_phases_lem : (b : Bus D) (req : Netbuf) → IsRequest b req → Ended b (dma_phases hw req b)
  dma_phases_lem b req (few, fits, pad) =
      let d1 = (do_pio_write_internal hw b.device 0x100 req.trans.transfer_length).1 in
      let d2 = (out_token hw d1 (dma_address req)).1 in
      let b2 = record b { device = d2 } in
      let (status, d3, _, _, _, eq) = transfer_data_lem hw count m b2 req few fits pad in
      let go : Outcome (ℕ × Bus D) → Outcome (ℕ × Bus D) = λ o. o >>= λ r. handed_over hw r in
      rw
        (
          answers.writes b.device 0x100 req.trans.transfer_length,
          answers.commands d1 (dma_address req),
        )
        (Ended-as b (record b { device = d3 }) (go (transfer_data hw b2 req)) _ (ap go eq)
          (λ d. refl) (handed_over_lem (record b { device = d3 }) status))

  abbrev taken : Bus D → Irqs → Irqs → D → Outcome (ℕ × Bus D)
  taken b shadow mask d = ran (
    a_pending,
    record b {
      dma_in_prog = true;
      irqs_enabled = false;
      shadow = shadow;
      irq_mask = mask;
      device = d;
    },
  )

  abbrev under : Bus D → Netbuf → Irqs → Outcome (ℕ × Bus D)
  under b req mask =
      dma_phases hw req (if any mask then masked hw b mask else b) >>= λ r. ran (put_back hw mask r)

  do_dma_op_lem : (b : Bus D) (req : Netbuf) → IsRequest b req → Owned b (do_dma_op hw b req)
  unfolding do_dma_op mask_spi_interrupts unmask_interrupts
  do_dma_op_lem b req is = elim (Bool-cases b.shadow.pkt_avail) [
    | inl y ↦
        let whole : under b req (meet pkt_avail b.shadow) ≡ under b req pkt_avail =
          ap (λ x. under b req (record no_irqs { pkt_avail = x })) y in
        let b1 = masked hw b pkt_avail in
        let back : Outcome (ℕ × Bus D) → Outcome (ℕ × Bus D) =
          λ o. o >>= λ r. ran (put_back hw pkt_avail r) in
        (elim (dma_phases_lem b1 req is) [
          | inl (d, eq) ↦ inl (
            d,
            whole
                ∙ ap back eq
                ∙ ap (λ k. taken b (without pkt_avail b.shadow) k d)
                    (sym (if-true b.shadow.pkt_avail pkt_avail b.irq_mask y)),
          )
          | inr (s, d, ne, eq) ↦
              let shadow = join pkt_avail b1.shadow in
              let d' = (do_pio_write_internal hw d intr_enable_reg (word shadow)).1 in
              let other : (s == a_pending) ≡ false = ==_ne s a_pending ne in
              inr (
                s,
                d',
                ne,
                whole
                    ∙ ap back eq
                    ∙ ap (λ x. ran x) (if-false (s == a_pending) _ _ other)
                    ∙ ap
                        (λ x.
                          ran (
                            s,
                            record b { shadow = record b.shadow { pkt_avail = x }; device = d' },
                          ))
                        (sym y),
              )
        ])
    | inr n ↦
        let whole : under b req (meet pkt_avail b.shadow) ≡ under b req no_irqs =
          ap (λ x. under b req (record no_irqs { pkt_avail = x })) n in
        let back : Outcome (ℕ × Bus D) → Outcome (ℕ × Bus D) =
          λ o. o >>= λ r. ran (put_back hw no_irqs r) in
        (elim (dma_phases_lem b req is) [
          | inl (d, eq) ↦ inl (
            d,
            whole
                ∙ ap back eq
                ∙ ap (λ x. taken b (record b.shadow { pkt_avail = x }) b.irq_mask d) n
                ∙ ap (λ k. taken b (without pkt_avail b.shadow) k d)
                    (sym (if-false b.shadow.pkt_avail pkt_avail b.irq_mask n)),
          )
          | inr (s, d, ne, eq) ↦ inr (s, d, ne, whole ∙ ap back eq)
        ])
  ]

  swap_settings_lem : (w x : ℕ) → IsWidth w → (c : ℕ) × (swap_settings w x ≡ ran c)
  unfolding swap_settings
  swap_settings_lem w x (inl e) = rw e (_, refl)
  swap_settings_lem w x (inr (inl e)) = rw e (_, refl)
  swap_settings_lem w x (inr (inr e)) = rw e (_, refl)

  configured :
      (b : Bus D)
      → IsWidth b.dma_data_width
      → (c : ℕ) × (d : D) × (configure_byte_swap hw b
          ≡ ran (0, record b { config_shadow = c; device = d }))
  unfolding configure_byte_swap
  configured b w =
      let (c, eq) = swap_settings_lem b.dma_data_width b.config_shadow w in
      let write = λ (c : ℕ). write_reg hw (record b { config_shadow = c }) 0x400 c in
      let go : Outcome ℕ → Outcome (ℕ × Bus D) =
        λ o. o >>= λ s. ran (if s == b.config_shadow then (a_ok, b) else write s) in
      elim (Bool-cases (c == b.config_shadow)) [
        | inl y ↦ (
          b.config_shadow,
          b.device,
          ap go eq ∙ ap (λ x. ran x) (if-true (c == b.config_shadow) (a_ok, b) (write c) y),
        )
        | inr n ↦ (
          c,
          (write c).1.device,
          ap go eq
              ∙ ap (λ x. ran x)
                  (if-false (c == b.config_shadow) (a_ok, b) (write c) n
                    ∙ ap (λ s. (s, (write c).1)) (answers.writes b.device 0x400 c)),
        )
      ]

  spaced :
      (r : Bool) (b : Bus D) (space : ℕ)
      → (if r then b else record b { write_buffer_space = space })
        ≡ record b { write_buffer_space = if r then b.write_buffer_space else space }
  spaced true b space = refl
  spaced false b space = refl

  -- `Hcd_Request`, in the driver.
  pub hcd_request-Requested :
      (b : Bus D) (req : Netbuf)
      → IsRequest b req
      → IsWidth b.dma_data_width
      → b.fatal_error ≡ false
      → b.shutdown ≡ false
      → Requested b req (hcd_request hw b req)
  unfolding hcd_request
  hcd_request-Requested b req is w f s =
      let (c, d, eq) = configured b w in
      let b1 = record b { config_shadow = c; device = d } in
      let space = adjusted b.write_buffer_space req.trans.transfer_length in
      let b2 = record b1 {
        write_buffer_space = if is_read req then b.write_buffer_space else space;
      } in
      let go : Outcome (ℕ × Bus D) → Outcome (ℕ × Bus D) =
        λ o. o >>= λ r. on_ok r (λ x. ran x) (submit hw req) in
      let path : hcd_request hw b req ≡ do_dma_op hw b2 req =
        if-false b.fatal_error (ran (23, b)) _ f
        ∙ if-false b.shutdown (ran (16, b)) (go (configure_byte_swap hw b)) s
        ∙ ap go eq
        ∙ ap (λ x. do_dma_op hw x req) (spaced (is_read req) b1 space) in
      (c, subst (Owned b2) (sym path) (do_dma_op_lem b2 req is))
