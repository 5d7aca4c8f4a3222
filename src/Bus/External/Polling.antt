-- ===== src/Bus/External/Polling.antt =====
-- The wait for the end of an access to a register of the core.
use atheros_wifi.Prelude.{
  ℕ, zero, suc, ◌%◌, ◌<◌, bit_or, ◌≡◌, refl, sym, ap, ◌∙◌, inl, inr, Bool, true, false, not, arith,
  ◌==◌, Bool-cases, if-true, if-false, Outcome, ran, ◌>>=◌, assert, Returns,
}
use mathlib.Core.Path.{subst}
use atheros_wifi.Netbuf.Buffer.{Netbuf}
use atheros_wifi.Bus.{
  a_ok, a_error, a_pending, word, Custom, Bus, status_reg, write_reg, on_ok, do_pio_write_internal,
  do_pio_read_internal, cmd_addr_read, cmd_address_internal,
}
use atheros_wifi.Bus.Shadow.{Answers}
use atheros_wifi.Bus.Transfer.{is_read, is_sync}
use atheros_wifi.Bus.Transfer.Bytes.{Moves, transfer_data_lem}
use atheros_wifi.Bus.Request.Ownership.{IsRequest}
use atheros_wifi.Bus.Interrupt.{access_done}
use atheros_wifi.Bus.External.{
  through_port, port, handle_external_read_done, poll, write_port, size_word, config_word,
  empty_port, await_done, do_pio_external_access,
}

-- A request without a callback: the access is over when the call returns.
abbrev pub IsAccess : {D : Type 0} → Bus D → Netbuf → Type 0
IsAccess b req = IsRequest b req × (is_sync req ≡ true)

module _ {D : Type 0} (hw : Custom D) (count : D → ℕ) (answers : Answers hw) (m : Moves hw count)
    (ends : (d : D) → (hw.complete_transfer d true).0 ≡ 0) where
  -- The bit of the status that the `i`-th reading finds, with a delay after each before it.
  abbrev pub done_at : D → ℕ → Bool
  done_at d zero = (do_pio_read_internal hw d status_reg).1 % 2 == 1
  done_at d (suc i) = done_at (hw.usec_delay (do_pio_read_internal hw d status_reg).2 1000) i

  poll-done : (retry n : ℕ) (d : D) → n < retry → done_at d n ≡ true → 0 < (poll hw retry d).0
  unfolding poll
  poll-done zero n d lt h = absurd (omega arith)
  poll-done (suc retry) zero d lt h = rw (answers.reads d 0x500, h) (omega arith)
  poll-done (suc retry) (suc n) d lt h =
      let d' = (do_pio_read_internal hw d 0x500).2 in
      let more : (retry == 0) ≡ false = ground arith in
      let later = poll-done retry n (hw.usec_delay d' 1000) (omega arith) h in
      elim (Bool-cases (done_at d 0)) [
        | inl y ↦ rw (answers.reads d 0x500, y) (omega arith)
        | inr n' ↦ rw (answers.reads d 0x500, n', more) later
      ]

  poll-never :
      (retry : ℕ) (d : D) → ((n : ℕ) → n < retry → done_at d n ≡ false) → (poll hw retry d).0 ≡ 0
  unfolding poll
  poll-never zero d h = refl
  poll-never (suc retry) d h =
      let d' = (do_pio_read_internal hw d 0x500).2 in
      elim (Bool-cases (retry == 0)) [
        | inl y ↦
            rw (answers.reads d 0x500, h 0 (omega arith), y)
              (poll-never retry d' (λ n lt. absurd (ground arith)))
        | inr more ↦
            rw (answers.reads d 0x500, h 0 (omega arith), more)
              (poll-never retry (hw.usec_delay d' 1000) (λ n lt. h (suc n) (omega arith)))
      ]

  -- A transfer through a port succeeds and keeps the state of the driver.
  ported :
      (b : Bus D) (req : Netbuf) (address : ℕ)
      → IsAccess b req
      → (d : D) × (on_ok (port hw b address) (λ x. ran x) (through_port hw req)
          ≡ ran (0, record b { device = d }))
  ported b req address ((few, fits, pad), sync) =
      let b1 = (port hw b address).1 in
      let (s, d, last, e, c, eq) = transfer_data_lem hw count m b1 req few fits pad in
      let fine : s ≡ 0 = e ∙ ap (λ y. (hw.complete_transfer last y).0) sync ∙ ends last in
      let go : Outcome (ℕ × Bus D) → Outcome (ℕ × Bus D) =
        λ o. o >>= λ (s, b'). (assert (not (s == a_pending)) >>= λ _. ran (s, b')) in
      (
        d,
        rw (answers.commands b.device address)
            (ap go eq ∙ ap (λ s. go (ran (s, record b { device = d }))) fine),
      )

  write_port_lem :
      (b : Bus D) (req : Netbuf)
      → IsAccess b req
      → (d : D) × (write_port hw b req ≡ ran (0, record b { device = d }))
  write_port_lem b req is = elim (Bool-cases (is_read req)) [
    | inl y ↦ (b.device, if-true (is_read req) (ran (0, b)) _ y)
    | inr n ↦
        let (d, eq) = ported b req (bit_or 0xA00 cmd_address_internal) is in
        (d, if-false (is_read req) (ran (0, b)) _ n ∙ eq)
  ]

  empty_port_lem :
      (b : Bus D) (req : Netbuf)
      → IsAccess b req
      → (d : D) × (empty_port hw req b ≡ ran (0, record b { device = d }))
  unfolding handle_external_read_done
  empty_port_lem b req is =
      let w = word access_done in
      let go : Outcome (ℕ × Bus D) → Outcome (ℕ × Bus D) =
        λ o. o >>= λ (_, b'). ran (write_reg hw b' 0xC00 w) in
      let acked : D → ℕ → Outcome (ℕ × Bus D) =
        λ d s. ran (s, record b { device = (do_pio_write_internal hw d 0xC00 w).1 }) in
      let ack = λ (d : D). ap (acked d) (answers.writes d 0xC00 w) in
      elim (Bool-cases (is_read req)) [
        | inl y ↦
            let (d, eq) =
              ported b req (bit_or (bit_or 0x800 cmd_address_internal) cmd_addr_read) is in
            (
              _,
              ap go (if-true (is_read req) (handle_external_read_done hw b req) (ran (0, b)) y ∙ eq)
                  ∙ ack d,
            )
        | inr n ↦ (
          _,
          ap go (if-false (is_read req) (handle_external_read_done hw b req) (ran (0, b)) n)
              ∙ ack b.device,
        )
      ]

  -- The state of the target from which it is polled.
  abbrev pub Polled : Bus D → Netbuf → D → Type 0
  Polled b req d0 =
      ((n : ℕ)
        → n < 200
        → done_at d0 n ≡ true
        → Returns (λ (s, b'). s ≡ a_ok) (do_pio_external_access hw b req))
      × (((n : ℕ) → n < 200 → done_at d0 n ≡ false)
          → Returns (λ (s, b'). s ≡ a_error) (do_pio_external_access hw b req))

  await_done_lem :
      (b : Bus D) (req : Netbuf)
      → IsAccess b req
      → ((n : ℕ)
          → n < 200
          → done_at b.device n ≡ true
          → Returns (λ (s, b'). s ≡ a_ok) (await_done hw req b))
        × (((n : ℕ) → n < 200 → done_at b.device n ≡ false)
            → Returns (λ (s, b'). s ≡ a_error) (await_done hw req b))
  await_done_lem b req is =
      let (left, d) = poll hw 200 b.device in
      let (d', eq) = empty_port_lem (record b { device = d }) req is in
      (
        (λ n lt h.
            let some_left = poll-done 200 n b.device lt h in
            let nonzero : ((poll hw 200 b.device).0 == 0) ≡ false = ground arith in
            rw (nonzero, eq) refl),
        (λ h. rw (poll-never 200 b.device h) refl),
      )

  -- Where the target answers and takes every buffer, for a synchronous request of fewer than 2 ^
  -- 16 bytes in fewer than 255 fragments with at most a block of padding, where a synchronous
  -- transfer completes with A_OK: `Hcd_DoPioExternalAccess` returns A_OK if one of the first 200
  -- readings of the status shows the end of the access, and A_ERROR if none does.
  pub do_pio_external_access_lem :
      (b : Bus D) (req : Netbuf)
      → IsAccess b req
      → let b1 = (write_reg hw b 0x600 (size_word req)).1 in
        (d : D) × (write_port hw b1 req ≡ ran (0, record b1 { device = d }))
        × Polled b req (do_pio_write_internal hw d 0x700 (config_word req)).1
  unfolding do_pio_external_access
  do_pio_external_access_lem b req is =
      let b1 = (write_reg hw b 0x600 (size_word req)).1 in
      let (d2, eq2) = write_port_lem b1 req is in
      let d3 = (do_pio_write_internal hw d2 0x700 (config_word req)).1 in
      let (good, bad) = await_done_lem (record b { device = d3 }) req is in
      let go : Outcome (ℕ × Bus D) → Outcome (ℕ × Bus D) = λ o. o >>= λ r.
      on_ok r (λ x. ran x)
        λ b2. on_ok (write_reg hw b2 0x700 (config_word req)) (λ x. ran x) (await_done hw req) in
      let path : do_pio_external_access hw b req ≡ await_done hw req (record b { device = d3 }) =
        rw (answers.writes b.device 0x600 (size_word req))
          (ap go eq2 ∙ rw (answers.writes d2 0x700 (config_word req)) refl) in
      (
        d2,
        eq2,
        (
          (λ n lt h. subst (Returns (λ (s, b'). s ≡ a_ok)) (sym path) (good n lt h)),
          (λ h. subst (Returns (λ (s, b'). s ≡ a_error)) (sym path) (bad h)),
        ),
      )
