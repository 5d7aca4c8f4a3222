-- ===== src/Bus/Request/Mask.antt =====
-- The target's mask after a request.
use atheros_wifi.Prelude.{
  ℕ, ◌+◌, ◌-◌, ◌*◌, ◌%◌, ◌^◌, ◌≡◌, refl, sym, ◌∙◌, inl, inr, Bool, true, false, arith, ◌==◌,
  if◌then◌else◌, Bool-cases, if-true, if-false, Outcome, ran, halted, Returns, IfReturns,
  IfReturns-bind,
}
use mathlib.Core.Path.{subst}
use atheros_wifi.Netbuf.Buffer.{Netbuf}
use atheros_wifi.Bus.{
  a_ok, a_pending, Irqs, meet, any, word, Custom, Bus, write_reg, unmask_interrupts, out_token,
  enable_disable_spi_irq, enable_disable_hw_detect,
}
use atheros_wifi.Bus.Shadow.{Answers, IsRegister, Mirrors, on_edge, mask-Mirrors, unmask-Mirrors}
use atheros_wifi.Bus.Interrupt.{pkt_avail, masked}
use atheros_wifi.Bus.Transfer.{is_read, transfer_data}
use atheros_wifi.Bus.Transfer.Bytes.{Moves}
use atheros_wifi.Bus.Request.{
  swap_settings, configure_byte_swap, handed_over, dma_phases, dma_address, put_back, do_dma_op,
  submit, hcd_request,
}
use atheros_wifi.Bus.Request.Kept.{KeepsMask, if-IfReturns, on_ok-IfReturns, transfer_data-Same}
use atheros_wifi.Bus.Request.Ownership.{IsRequest, IsWidth, Requested, hcd_request-Requested}

returned :
    {A : Type 0} (P : A → Type 0) (o : Outcome A) (a : A) → o ≡ ran a → IfReturns P o → Returns P o
returned P o a e h = subst (Returns P) (sym e) (subst (IfReturns P) e h)

module _ {D : Type 0} (hw : Custom D) (enabled : D → ℕ) (r : IsRegister hw 13 enabled) where
  -- The target's mask is the shadow in the end.
  abbrev MirrorsEnd : ℕ × Bus D → Type 0
  MirrorsEnd (_, b) = Mirrors enabled b

  enable-off-Mirrors :
      (b : Bus D)
      → Mirrors enabled b
      → IfReturns (λ b'. Mirrors enabled b') (enable_disable_hw_detect hw b false)
  unfolding enable_disable_hw_detect enable_disable_spi_irq
  enable-off-Mirrors b h =
      let off : Mirrors enabled (enable_disable_spi_irq hw b false) =
        elim (Bool-cases b.irqs_enabled) [
          | inl y ↦ rw y (r.irq b.device false ∙ h)
          | inr y ↦ rw y h
        ] in
      elim (Bool-cases (on_edge b)) [ inl y ↦ rw y off | inr y ↦ rw y off ]

  handed_over-Mirrors :
      (s : ℕ) (b : Bus D) → Mirrors enabled b → IfReturns MirrorsEnd (handed_over hw (s, b))
  handed_over-Mirrors s b h =
      let b1 = record b { dma_in_prog = true } in
      if-IfReturns MirrorsEnd (s == a_pending) _ (ran (s, b))
        (IfReturns-bind (λ b'. Mirrors enabled b') MirrorsEnd (enable_disable_hw_detect hw b1 false)
          _ (enable-off-Mirrors b1 h) λ b' h'. h')
        h

  dma_phases-Mirrors :
      (b : Bus D) (req : Netbuf)
      → KeepsMask hw enabled req
      → Mirrors enabled b
      → IfReturns MirrorsEnd (dma_phases hw req b)
  dma_phases-Mirrors b req k h =
      let M : Bus D → Type 0 = λ b'. Mirrors enabled b' in
      on_ok-IfReturns M MirrorsEnd (write_reg hw b 0x100 req.trans.transfer_length) (λ x. ran x) _
        (r.others 1 (omega arith) refl b.device req.trans.transfer_length ∙ h) (λ s x same. same)
        λ b1 h1.
          let (status, d) = out_token hw b1.device (dma_address req) in
          let b2 = record b1 { device = d } in
          on_ok-IfReturns M MirrorsEnd (status, b2) (λ x. ran x) _ (k.token b1.device ∙ h1)
            (λ s x same. same)
            λ b3 h3.
              IfReturns-bind
                (λ (_, b').
                  (d' : D) × (enabled d' ≡ word b3.shadow) × (b' ≡ record b3 { device = d' }))
                MirrorsEnd (transfer_data hw b3 req) _
                (transfer_data-Same hw enabled r req k (word b3.shadow) b3 h3)
                λ (s, b') (d', same, eq).
                  handed_over-Mirrors s b' (subst (λ x. Mirrors enabled x) (sym eq) same)

  put_back-Mirrors :
      (mask : Irqs) (s : ℕ) (b : Bus D) → Mirrors enabled b → MirrorsEnd (put_back hw mask (s, b))
  put_back-Mirrors mask s b h = elim (Bool-cases (any mask)) [
    | inr n ↦ subst MirrorsEnd (sym (if-false (any mask) _ (s, b) n)) h
    | inl y ↦
        subst MirrorsEnd (sym (if-true (any mask) _ (s, b) y)) (elim (Bool-cases (s == a_pending)) [
          | inl p ↦
              subst MirrorsEnd
                (sym (if-true (s == a_pending) _ (s, (unmask_interrupts hw b mask).1) p)) h
          | inr p ↦
              let (d, e, eq) = unmask-Mirrors hw enabled b mask r y in
              subst MirrorsEnd
                (sym (if-false (s == a_pending) (s, record b { irq_mask = mask }) _ p))
                (subst (λ x. Mirrors enabled x) (sym eq) e)
        ])
  ]

  do_dma_op-Mirrors :
      (b : Bus D) (req : Netbuf)
      → KeepsMask hw enabled req
      → Mirrors enabled b
      → IfReturns MirrorsEnd (do_dma_op hw b req)
  unfolding do_dma_op
  do_dma_op-Mirrors b req k h =
      let mask = meet pkt_avail b.shadow in
      let b1 = if any mask then masked hw b mask else b in
      let h1 : Mirrors enabled b1 = elim (Bool-cases (any mask)) [
        | inl y ↦
            let (d, e, eq) = mask-Mirrors hw enabled b mask r in
            subst (λ x. Mirrors enabled x) (sym (if-true (any mask) _ b y ∙ eq)) e
        | inr y ↦
            subst (λ x. Mirrors enabled x) (sym (if-false (any mask) (masked hw b mask) b y)) h
      ] in
      IfReturns-bind MirrorsEnd MirrorsEnd (dma_phases hw req b1) _ (dma_phases-Mirrors b1 req k h1)
        λ (s, b') h'. put_back-Mirrors mask s b' h'

  configure_byte_swap-Mirrors :
      (b : Bus D) → Mirrors enabled b → IfReturns MirrorsEnd (configure_byte_swap hw b)
  unfolding configure_byte_swap
  configure_byte_swap-Mirrors b h =
      IfReturns-bind (λ _. Unit) MirrorsEnd (swap_settings b.dma_data_width b.config_shadow) _
        (always (swap_settings b.dma_data_width b.config_shadow))
        λ s _.
          let write = write_reg hw (record b { config_shadow = s }) 0x400 s in
          elim (Bool-cases (s == b.config_shadow)) [
            | inl y ↦ subst MirrorsEnd (sym (if-true (s == b.config_shadow) (a_ok, b) write y)) h
            | inr y ↦
                subst MirrorsEnd (sym (if-false (s == b.config_shadow) (a_ok, b) write y))
                  (r.others 4 (omega arith) refl b.device s ∙ h)
          ]
    where
      always : {A : Type 0} (o : Outcome A) → IfReturns (λ _. Unit) o
      always (ran a) = tt
      always halted = tt

  hcd_request-Mirrors :
      (b : Bus D) (req : Netbuf)
      → KeepsMask hw enabled req
      → Mirrors enabled b
      → IfReturns MirrorsEnd (hcd_request hw b req)
  unfolding hcd_request
  hcd_request-Mirrors b req k h =
      let space = (b.write_buffer_space + 2 * 2 ^ 32 - req.trans.transfer_length - 5) % 2 ^ 32 in
      if-IfReturns MirrorsEnd b.fatal_error (ran (23, b)) _ h (
        if-IfReturns MirrorsEnd b.shutdown (ran (16, b)) _ h (
          IfReturns-bind MirrorsEnd MirrorsEnd (configure_byte_swap hw b) _
            (configure_byte_swap-Mirrors b h)
            λ (s, b1) h1.
              on_ok-IfReturns (λ b'. Mirrors enabled b') MirrorsEnd (s, b1) (λ x. ran x)
                (submit hw req) h1 (λ s' x same. same) λ b2 h2. submitted b2 h2 (is_read req) refl))
    where
      submitted :
          (b2 : Bus D)
          → Mirrors enabled b2
          → (t : Bool) → is_read req ≡ t
          → IfReturns MirrorsEnd (submit hw req b2)
      submitted b2 h2 true e = rw e (do_dma_op-Mirrors b2 req k h2)
      submitted b2 h2 false e = rw e (do_dma_op-Mirrors _ req k h2)

  -- Where the target answers and takes every buffer, its mask is the driver's shadow of it and is
  -- left alone by the command and the data of the transfer, there is no fatal error and no
  -- shutdown, the data width is known, and the request has fewer than 2 ^ 16 bytes in fewer than
  -- 255 fragments and at most a block of padding: a write takes its length and five reserved bytes
  -- from the room in the target; then either the DMA engine owns the bus, A_PENDING is returned,
  -- and the packet interrupt is masked, and kept for the end if it was enabled, or another status
  -- is returned, and neither the shadow nor what is kept has changed. In both cases the target's
  -- mask is the shadow again.
  pub hcd_request_lem :
      (count : D → ℕ) (b : Bus D) (req : Netbuf)
      → Answers hw
      → Moves hw count
      → KeepsMask hw enabled req
      → IsRequest b req
      → IsWidth b.dma_data_width
      → b.fatal_error ≡ false
      → b.shutdown ≡ false
      → Mirrors enabled b
      → Requested b req (hcd_request hw b req)
        × Returns (λ (_, b'). Mirrors enabled b') (hcd_request hw b req)
  hcd_request_lem count b req answers m k is w f s h =
      let o = hcd_request hw b req in
      let end_ = hcd_request-Mirrors b req k h in
      let (c, q) = hcd_request-Requested hw count answers m b req is w f s in
      (
        (c, q),
        elim q [
          | inl (d, eq) ↦ returned MirrorsEnd o _ eq end_
          | inr (s', d, ne, eq) ↦ returned MirrorsEnd o _ eq end_
        ],
      )
