-- ===== src/Transmit.antt =====
-- common_src/driver: the transmit side of the driver, from a request to the decision to send it.
-- The queue is the list of the requests that it holds (Netbuf/Queue shows that the linked queue
-- keeps such a list).
pub mod Purge
pub mod Ready
pub mod Submit
pub mod Send
mod Tests
use atheros_wifi.Prelude.{
  [], ℕ, zero, suc, ◌+◌, ◌-◌, ◌*◌, ◌/◌, ◌%◌, ◌^◌, bit_and, Bool, true, false, ◌||◌, Option, none,
  some, List, ◌∷◌, ◌++◌, ltb, leb, ◌==◌, if◌then◌else◌, length, Outcome, ran, ◌>>=◌, ◌>>◌, assert,
}
use atheros_wifi.Util.{get_endpoint}
use atheros_wifi.Netbuf.Buffer.{Netbuf, Callback, tx_complete, ep0_tx_complete, to_len, push}
use atheros_wifi.Htc.{Driver, get_credit_counter_update}
use atheros_wifi.Htc.Frame.{htc_hdr_length}

-- What the bus layer keeps for the transmit side: its last reading of the room in the target's
-- buffer, and whether it waits for the interrupt of the watermark
-- (SDHD_BOOL_DMA_WRITE_WAIT_FOR_BUFFER).
pub record Spi : Type 0 where
  pub write_buffer_space : ℕ
  pub write_wait : Bool

-- The bus layer: the registers that a PIO access reads, what `Hcd_RefreshWriteBufferSpace` reads,
-- and `Hcd_ProgramWriteBufferWaterMark`.
pub record Hcd : Type 0 where
  pub pio : ℕ → Option ℕ
  pub space : Option ℕ
  pub program_write_buffer_water_mark : ℕ → Spi → Spi

-- The fields of A_DRIVER_CONTEXT: three of its `booleans`, and `completed` for the requests given
-- to their callbacks.
pub record Tx : Type 0 where
  pub fatal_error : Bool
  pub dma_in_prog : Bool
  pub dma_complete : Bool
  pub spi : Spi
  pub credit_deadlock : Bool
  pub credit_deadlock_counter : ℕ
  pub rx_buffer_status : Bool
  pub tx_queue : List Netbuf
  pub completed : List Netbuf
  pub htc : Driver

-- `DEV_CALC_SEND_PADDED_LEN`
unfoldable pub send_padded_len : Driver → ℕ → ℕ
send_padded_len d len = bit_and ((len + d.block_mask) % 2 ^ 32) (2 ^ 32 - 1 - d.block_mask)

-- The credits for a transfer, as both submit functions work them out.
pub credits_required : ℕ → ℕ → ℕ
credits_required transfer_length credit_size =
    let n = transfer_length / credit_size in
    if leb transfer_length credit_size
    then 1
    else (if ltb (n * credit_size % 2 ^ 32) transfer_length then n + 1 else n)

-- The request as both submit functions leave it, with room for the header. The wake-up of the
-- driver's thread, their last step, is left out.
abbrev pub prepared : Callback → Driver → Netbuf → Outcome Netbuf
prepared cb d req = do
  let with_cb = record req { trans = record req.trans { cb = some cb } }
  b ← push with_cb htc_hdr_length
  let n = credits_required (send_padded_len d (to_len b)) d.credit_size
  ran (record b { trans = record b.trans { credits = n % 2 ^ 8 } })

unfoldable pub submit_tx_request : Tx → Netbuf → Outcome Tx
submit_tx_request t req = do
  b ← prepared tx_complete t.htc req
  ran (record t { tx_queue = t.tx_queue ++ (b ∷ []) })

pub submit_ep0_tx_request : Tx → Netbuf → Outcome Tx
submit_ep0_tx_request t req = do
  b ← prepared ep0_tx_complete t.htc req
  ran (record t { tx_queue = b ∷ t.tx_queue })

abbrev pub has_callback : Netbuf → Bool
has_callback b = elim b.trans.cb [ some _ ↦ true | none ↦ false ]

-- The loop of `Driver_DropTxDataPackets`: a request of a data endpoint is completed, one of a
-- control endpoint goes to the back. A completion without a callback is an assertion. What a
-- callback does is left out, and so is the unmasking of interrupts before it.
pub drop_loop : ℕ → List Netbuf → List Netbuf → Outcome (List Netbuf × List Netbuf)
drop_loop zero queue done = ran (queue, done)
drop_loop (suc n) [] done = drop_loop n [] done
drop_loop (suc n) (r ∷ rs) done =
    let requeued = drop_loop n (rs ++ (r ∷ [])) done in
    let dropped = drop_loop n rs (done ++ (r ∷ [])) in
    if ltb 1 r.trans.epid then (do assert (has_callback r); dropped) else requeued

pub drop_tx_data_packets : Tx → Outcome Tx
drop_tx_data_packets t = do
  (queue, done) ← drop_loop (length t.tx_queue % 2 ^ 16) t.tx_queue t.completed
  ran (record t { tx_queue = queue; completed = done })

abbrev pub max_credit_deadlock_attempts : ℕ
max_credit_deadlock_attempts = 2

abbrev pub wrbuf_rsvd_bytes : ℕ
wrbuf_rsvd_bytes = 5

-- No credit, even by the counter: without a receive buffer, no report can bring one.
pub out_of_credits : Tx → Outcome Tx
out_of_credits t =
    let t' = record t { credit_deadlock = true } in
    if t.rx_buffer_status
    then ran t
    else (if leb max_credit_deadlock_attempts t.credit_deadlock_counter
        then (do t'' ← drop_tx_data_packets t'; ran (record t'' { credit_deadlock_counter = 0 }))
        else ran t')

abbrev pub refused_or_not : ℕ → Tx → Outcome (Bool × Tx)
refused_or_not credits t =
    if credits == 0 then (do t' ← out_of_credits t; ran (false, t')) else ran (true, t)

-- The credits for the request at the head of the queue.
pub acquire_credits : Hcd → Tx → ℕ → Outcome (Bool × Tx)
acquire_credits h t ep_id =
    let i = get_endpoint ep_id in
    if (t.htc.ep i).credits == 0
    then (do
      d ← get_credit_counter_update h.pio t.htc ep_id
      let t' = record t { htc = d }
      refused_or_not (d.ep i).credits t')
    else ran (true, t)

abbrev pub refreshed : Option ℕ → ℕ → ℕ
refreshed none old = old
refreshed (some space) old = space

-- The room in the target's buffer.
pub check_room : Hcd → Tx → ℕ → Bool × Tx
check_room h t size =
    let now = record t.spi { write_buffer_space = refreshed h.space t.spi.write_buffer_space } in
    if ltb t.spi.write_buffer_space (size + wrbuf_rsvd_bytes)
    then (if ltb now.write_buffer_space (size + wrbuf_rsvd_bytes)
        then (false, record t { spi = h.program_write_buffer_water_mark size now })
        else (true, record t { spi = now }))
    else (true, t)

abbrev pub ready_for : Hcd → Tx → List Netbuf → Outcome (Bool × Tx)
ready_for h t [] = ran (false, t)
ready_for h t (req ∷ rest) = do
  let size = send_padded_len t.htc (to_len req)
  assert (leb size t.htc.credit_size)
  (has_credit, t') ← acquire_credits h t req.trans.epid
  ran (
      if has_credit
      then check_room h (record t' { credit_deadlock_counter = 0 }) size
      else (false, t'))

-- `Driver_TxReady`, without RESERVE_ONE_CREDIT_FOR_CONTROL
pub tx_ready : Hcd → Tx → Outcome (Bool × Tx)
tx_ready h t =
    let t' = record t { credit_deadlock = false } in
    if t.fatal_error || (t.dma_in_prog || (t.dma_complete || t.spi.write_wait))
    then ran (false, t')
    else ready_for h t' t.tx_queue
