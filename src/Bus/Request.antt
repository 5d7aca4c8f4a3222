-- ===== src/Bus/Request.antt =====
-- A request to the bus, up to its completion.
pub mod Ownership
pub mod Kept
pub mod Mask
use atheros_wifi.Prelude.{
  ℕ, ◌+◌, ◌-◌, ◌*◌, ◌%◌, ◌^◌, bit_and, bit_or, true, false, ◌==◌, if◌then◌else◌, Outcome, ran,
  halted, ◌>>=◌,
}
use atheros_wifi.Netbuf.Buffer.{Netbuf}
use atheros_wifi.Bus.{
  a_ok, a_ecanceled, a_hardware, a_pending, Irqs, meet, any, Custom, Bus, config_reg, write_reg,
  on_ok, unmask_interrupts, out_token, cmd_addr_read, enable_disable_hw_detect,
}
use atheros_wifi.Bus.Interrupt.{pkt_avail, masked}
use atheros_wifi.Bus.Transfer.{is_read, transfer_data}

abbrev pub dma_size_reg : ℕ
dma_size_reg = 0x100

-- ATH_SPI_CONFIG_BYTE_SWAP and ATH_SPI_CONFIG_SWAP_16BIT
abbrev pub byte_swap : ℕ
byte_swap = 2 ^ 2

abbrev pub swap_16bit : ℕ
swap_16bit = 2

abbrev pub cleared : ℕ → ℕ → ℕ
cleared mask x = bit_and x (2 ^ 16 - 1 - mask)

-- The settings for a width: ATH_TRANS_DS_32, ATH_TRANS_DS_16 or ATH_TRANS_DS_8.
unfoldable pub swap_settings : ℕ → ℕ → Outcome ℕ
swap_settings width x =
    if width == 3
    then ran (cleared swap_16bit (bit_or x byte_swap))
    else (if width == 1
        then ran (bit_or (bit_or x byte_swap) swap_16bit)
        else (if width == 0 then ran (cleared swap_16bit (cleared byte_swap x)) else halted))

-- `ConfigureByteSwap`
unfoldable pub configure_byte_swap : {D : Type 0} → Custom D → Bus D → Outcome (ℕ × Bus D)
configure_byte_swap hw b = do
  settings ← swap_settings b.dma_data_width b.config_shadow
  ran (
      if settings == b.config_shadow
      then (a_ok, b)
      else write_reg hw (record b { config_shadow = settings }) config_reg settings)

-- A transfer that the DMA engine does gets the bus: the host's controller must not detect the
-- interrupts of the target before it is complete.
abbrev pub handed_over : {D : Type 0} → Custom D → ℕ × Bus D → Outcome (ℕ × Bus D)
handed_over hw (status, b) =
    if status == a_pending
    then (do
      b' ← enable_disable_hw_detect hw (record b { dma_in_prog = true }) false
      ran (status, b'))
    else ran (status, b)

abbrev pub dma_address : Netbuf → ℕ
dma_address req = if is_read req then bit_or req.trans.address cmd_addr_read else req.trans.address

-- From the size register on.
abbrev pub dma_phases : {D : Type 0} → Custom D → Netbuf → Bus D → Outcome (ℕ × Bus D)
dma_phases hw req b = on_ok (write_reg hw b dma_size_reg req.trans.transfer_length) ran λ b1.
    let (status, d) = out_token hw b1.device (dma_address req) in
    on_ok (status, record b1 { device = d }) ran
      λ b2. do r ← transfer_data hw b2 req; handed_over hw r

-- The packet interrupt is put back, or kept for the completion.
abbrev pub put_back : {D : Type 0} → Custom D → Irqs → ℕ × Bus D → ℕ × Bus D
put_back hw mask (status, b) =
    if any mask
    then (if status == a_pending
        then (status, record b { irq_mask = mask })
        else (status, (unmask_interrupts hw b mask).1))
    else (status, b)

-- `DoDMAOp`
unfoldable pub do_dma_op : {D : Type 0} → Custom D → Bus D → Netbuf → Outcome (ℕ × Bus D)
do_dma_op hw b req = do
  let mask = meet pkt_avail b.shadow
  r ← dma_phases hw req (if any mask then masked hw b mask else b)
  ran (put_back hw mask r)

-- `ADJUST_WRBUF_SPACE`, with ATH_SPI_WRBUF_RSVD_BYTES
abbrev pub adjusted : ℕ → ℕ → ℕ
adjusted space len = (space + 2 * 2 ^ 32 - len - 5) % 2 ^ 32

abbrev pub submit : {D : Type 0} → Custom D → Netbuf → Bus D → Outcome (ℕ × Bus D)
submit hw req b =
    let space = adjusted b.write_buffer_space req.trans.transfer_length in
    do_dma_op hw (if is_read req then b else record b { write_buffer_space = space }) req

-- `Hcd_Request`
unfoldable pub hcd_request : {D : Type 0} → Custom D → Bus D → Netbuf → Outcome (ℕ × Bus D)
hcd_request hw b req =
    if b.fatal_error
    then ran (a_hardware, b)
    else (if b.shutdown
        then ran (a_ecanceled, b)
        else (do r ← configure_byte_swap hw b; on_ok r ran (submit hw req)))

-- `Bus_TransferComplete`, without the wake-up of the driver's thread.
unfoldable pub transfer_complete : {D : Type 0} → Bus D → Bus D
transfer_complete b =
    if b.dma_in_prog then record b { dma_complete = true; dma_in_prog = false } else b
