-- ===== src/Loop.antt =====
-- common_src/driver and hw_interface: a request on its way over the bus, and the driver's loop.
pub mod Flags
pub mod Receive
mod Tests
use atheros_wifi.Prelude.{
  ℕ, zero, suc, ◌+◌, ◌-◌, ◌*◌, ◌/◌, ◌%◌, ◌^◌, ◌≤◌, ◌<◌, min, bit_and, bit_or, ◌≡◌, refl, sym, ap,
  ◌∙◌, ◌≢◌, ◌↔◌, ◌⊎◌, inl, inr, Bool, true, false, ◌&&◌, ◌||◌, not, Option, none, some, List, [],
  ◌∷◌, ◌++◌, map, arith, ltb, leb, ◌==◌, if◌then◌else◌, ltb→lt, lt→ltb, le→ltb, ==_iff, ==_refl,
  ==_ne, Bool-cases, if-true, if-false, Option-cases, length, get_elem?, get_or, set, take, drop,
  replicate, length-append, length-set, get_or-set_self, get_or-set_ne, length-take, length-drop,
  length-replicate, take-append, drop-append, take-drop, take-all, Outcome, ran, halted, ◌>>=◌,
  ◌>>◌, assert, Returns, Returns-mono, Returns-bind, Returns-first, IfReturns, IfReturns-bind,
  IfReturns-mono, passes, passes_at, add32, sub32, Mem, load, store, length-load, load-add,
  take-load, drop-load, load-store_self, load-store_below, load-store_above,
}
use atheros_wifi.Netbuf.Buffer.{Netbuf, Callback, rx_complete, tx_complete, ep0_tx_complete, to_len}
use atheros_wifi.Htc.{Driver}
use atheros_wifi.Htc.Frame.{
  Status, ok, htc_hdr_length, process_recv_header, process_tx_complete, prepare_recv_packet,
  send_packet,
}
use atheros_wifi.Htc.Frame
use atheros_wifi.Transmit.{send_padded_len, has_callback}
use atheros_wifi.Bus.{
  a_ok, a_error, a_ecanceled, a_hardware, a_pending, Irqs, no_irqs, join, without, meet, any, bit,
  word, irqs_of, Custom, Bus, config_reg, status_reg, intr_cause_reg, intr_enable_reg, swap16,
  write_reg, read_reg, on_ok, mask_spi_interrupts, unmask_interrupts, do_pio_write_internal,
  do_pio_read_internal, out_token, cmd_addr_read, cmd_address_internal, enable_disable_spi_irq,
  enable_disable_hw_detect,
}
use atheros_wifi.Bus.Interrupt.{pkt_avail, bus_interrupt}
use atheros_wifi.Bus.Request.{hcd_request}
use atheros_wifi.Bus.Start.{get_lookahead}

-- The part of A_DRIVER_CONTEXT that the loop uses. `current` is pCurrentRequest, `rx_req` pRxReq,
-- and `completed` has the buffers that the callbacks gave to `Api_RxComplete` and `Api_TxComplete`,
-- whose work is left out. The field lookAhead, which two layers use, is that of `bus`.
pub record Loop (D : Type 0) : Type 0 where
  pub bus : Bus D
  pub htc : Driver
  pub mem : Mem
  pub rx_buffer_status : Bool
  pub rx_req : Option Netbuf
  pub enabled_spi_ints : Irqs
  pub mbox_address : ℕ
  pub current : Option Netbuf
  pub completed : List Netbuf

-- `HW_InterruptHandler`, without the wake-up of the driver's thread.
pub interrupt_handler : {D : Type 0} → Custom D → Bus D → Bus D
interrupt_handler hw b = enable_disable_spi_irq hw (record b { irq_detected = true }) false

-- `HW_GetMboxAddress`, with HIF_MBOX_WIDTH
pub get_mbox_address : {D : Type 0} → Loop D → (mbox len : ℕ) → Outcome ℕ
get_mbox_address l mbox len = do
  assert (mbox == 0)
  ran ((l.mbox_address + 0x800 + 2 ^ 32 - len) % 2 ^ 32)

-- `Driver_PostProcessRequest`
pub post_process_request : {D : Type 0} → Loop D → Netbuf → ℕ → Loop D
post_process_request l req status =
    let req' = record req { trans = record req.trans { status = status } } in
    let done = record l.bus {
      dma_complete = if status == a_pending then l.bus.dma_complete else true;
    } in
    if has_callback req then record l { current = some req'; bus = done } else l

-- The end of both functions below: the request goes to the bus.
pub submit_request : {D : Type 0} → Custom D → Loop D → Netbuf → Outcome (ℕ × Loop D)
submit_request hw l req = do
  (status, b) ← hcd_request hw l.bus req
  ran (status, post_process_request (record l { bus = b }) req status)

-- The request with its address, masked with ATH_TRANS_ADDR_MASK, its length and its command.
abbrev pub addressed : Netbuf → (address len cmd : ℕ) → Netbuf
addressed req address len cmd = record req {
  trans = record req.trans { address = address % 2 ^ 15; transfer_length = len; cmd = cmd };
}

-- `Driver_RecvPacket`: ATH_TRANS_READ | ATH_TRANS_DMA
pub recv_packet : {D : Type 0} → Custom D → Loop D → Netbuf → Outcome (ℕ × Loop D)
recv_packet hw l req = do
  r ← prepare_recv_packet (record l.htc { look_ahead = l.bus.lookahead }) req
  address ← get_mbox_address l 0 (to_len r)
  submit_request hw l (addressed r address r.trans.transfer_length 0x84)

abbrev pub send_on :
    {D : Type 0} → Custom D → Netbuf → Status × Driver × Mem → Loop D → Outcome (ℕ × Loop D)
send_on hw req (ok, d, m) l = do
  let len = send_padded_len d (to_len req) % 2 ^ 16
  let l' = record l { htc = d; mem = m }
  address ← get_mbox_address l' 0 len
  submit_request hw l' (addressed req address len 4)
send_on hw req (s, d, m) l =
    ran (a_error, post_process_request (record l { htc = d; mem = m }) req a_error)

-- `Driver_SendPacket`: ATH_TRANS_WRITE | ATH_TRANS_DMA
pub driver_send_packet : {D : Type 0} → Custom D → Loop D → Netbuf → Outcome (ℕ × Loop D)
driver_send_packet hw l req = do r ← send_packet l.htc l.mem req; send_on hw req r l

-- The packet interrupt that was masked for the transfer comes back.
abbrev pub restored : {D : Type 0} → Custom D → Bus D → Bus D
restored hw b =
    if any b.irq_mask
    then record (unmask_interrupts hw b b.irq_mask).1 { irq_mask = no_irqs }
    else b

-- What a callback does in the driver and in HTC, with the buffer that it leaves to the functions of
-- api_txrx.c: `Driver_RxComplete`, `Driver_TxComplete`, and `Driver_Ep0TxComplete`, which leaves none.
unfoldable pub callback : Driver → Mem → Callback → Netbuf → Outcome (Driver × List Netbuf)
callback d m rx_complete req = do
  (d', _, b) ←
      process_recv_header d m req (some (record { next_look_ahead = 0; num_look_aheads = 0 }))
  if b.trans.epid == 0 then (do Frame.rx_complete b; ran (d', [])) else ran (d', b ∷ [])
callback d m tx_complete req = do b ← process_tx_complete req; ran (d, b ∷ [])
callback d m ep0_tx_complete req = do _ ← process_tx_complete req; ran (d, [])

abbrev pub called_back : {D : Type 0} → Loop D → Option Netbuf → Outcome (Loop D)
called_back l none = halted
called_back l (some req) = elim req.trans.cb [
  | none ↦ halted
  | some cb ↦ (do
    (d, bs) ← callback l.htc l.mem cb req
    ran (record l { htc = d; completed = l.completed ++ bs }))
]

-- `Driver_CompleteRequest` of the current request.
pub complete_request : {D : Type 0} → Custom D → Loop D → Outcome (Loop D)
complete_request hw l = called_back (record l { bus = restored hw l.bus }) l.current

-- A completed request is looked for after each interrupt, and after each read.
pub process_completed : {D : Type 0} → Custom D → Loop D → Outcome (Loop D)
process_completed hw l =
    if l.bus.dma_complete
    then (do
      l' ← complete_request hw l
      ran (record l' { current = none; bus = record l'.bus { dma_complete = false } }))
    else ran l

-- The first two parts of `HW_ProcessPendingInterrupts`: what the target and the DMA engine report.
pub process_pending : {D : Type 0} → Custom D → Loop D → Outcome (Loop D)
process_pending hw l = do
  b ←
      if l.bus.irq_detected
      then (do (_, b') ← bus_interrupt hw (record l.bus { irq_detected = false }); ran b')
      else ran l.bus
  process_completed hw (record l { bus = b })
