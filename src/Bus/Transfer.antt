-- ===== src/Bus/Transfer.antt =====
-- The data phase of a transfer: the fragments of the request, and the padding behind them.
pub mod Bytes
use atheros_wifi.Prelude.{
  Option, ℕ, zero, suc, ◌+◌, ◌-◌, ◌%◌, ◌^◌, bit_and, Bool, true, false, not, none, some, ltb, leb,
  ◌==◌, if◌then◌else◌, Outcome, ran, halted, ◌>>=◌, ◌>>◌, assert,
}
use atheros_wifi.Netbuf.Buffer.{Netbuf, Frag, get_fragment}
use atheros_wifi.Bus.{a_ok, Custom, Bus, on_ok}

-- The request has a callback to be completed later, so that the transfer may be asynchronous.
abbrev pub is_sync : Netbuf → Bool
is_sync req = elim req.trans.cb [ some _ ↦ false | none ↦ true ]

abbrev pub is_read : Netbuf → Bool
is_read req = not (bit_and req.trans.cmd 0x80 == 0)

-- What `CUSTOM_BUS_INOUT_BUFFER` is called for: an empty fragment is left out.
abbrev pub one_buffer : {D : Type 0} → Custom D → D → Netbuf → Frag → ℕ × D
one_buffer hw d req frag =
    if frag.length == 0 then (a_ok, d) else hw.inout_buffer d frag (is_read req) (is_sync req)

-- One round of the loop, and `next` for the rounds after it: it ends at the first index without a
-- fragment, and at a failure. `totalLength` has 16 bits.
abbrev pub round :
    {D : Type 0}
    → Custom D
    → (next : D → ℕ → Outcome (ℕ × ℕ × D)) → D
    → Netbuf
    → (total : ℕ) → Option Frag
    → Outcome (ℕ × ℕ × D)
round hw next d req total none = ran (a_ok, total, d)
round hw next d req total (some frag) =
    let (status, d') = one_buffer hw d req frag in
    if status == a_ok then next d' ((total + frag.length) % 2 ^ 16) else ran (status, total, d')

-- The loop over the fragments from `i` on: the status, `totalLength` and the rest. It halts where
-- `fuel` ends before the fragments. An index is passed on as 8 bits.
unfoldable pub buffers :
    {D : Type 0} → Custom D → (fuel : ℕ) → D → Netbuf → (i total : ℕ) → Outcome (ℕ × ℕ × D)
buffers hw zero d req i total = halted
buffers hw (suc fuel) d req i total =
    round hw (λ d' t. buffers hw fuel d' req (i + 1) t) d req total (get_fragment req (i % 2 ^ 8))

-- The padding goes out after a failed fragment too, and its status takes the place of the other.
abbrev pub padding : {D : Type 0} → Custom D → Bus D → Netbuf → ℕ × ℕ × D → Outcome (ℕ × D)
padding hw b req (status, total, d) =
    let rest = req.trans.transfer_length - total in
    if ltb total req.trans.transfer_length
    then (do
      assert (leb rest b.block_size)
      let pad : Frag = record { payload = b.pad_buffer; length = rest }
      ran (hw.inout_buffer d pad (is_read req) (is_sync req)))
    else ran (status, d)

abbrev pub completed : {D : Type 0} → Custom D → Netbuf → ℕ × D → ℕ × D
completed hw req r = on_ok r (λ s. s) λ d. hw.complete_transfer d (is_sync req)

abbrev pub started : {D : Type 0} → Custom D → Bus D → Netbuf → D → Outcome (ℕ × D)
started hw b req d = do
  r ← buffers hw (req.num_frags + 2) d req 0 0
  r' ← padding hw b req r
  ran (completed hw req r')

-- `Bus_InOutDescriptorSet`, which `Hcd_TransferData` calls.
unfoldable pub transfer_data : {D : Type 0} → Custom D → Bus D → Netbuf → Outcome (ℕ × Bus D)
transfer_data hw b req = do
  (status, d) ← on_ok (hw.start_transfer b.device (is_sync req)) ran (started hw b req)
  ran (status, record b { device = d })
