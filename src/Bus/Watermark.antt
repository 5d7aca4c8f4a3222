-- ===== src/Bus/Watermark.antt =====
-- The watermark of the target's write buffer, and its look-ahead.
pub mod Level
use atheros_wifi.Prelude.{
  ℕ, ◌+◌, ◌-◌, ◌/◌, ◌%◌, ◌^◌, Bool, true, false, ◌&&◌, ltb, ◌==◌, if◌then◌else◌, Outcome, ran, ◌>>◌,
  assert,
}
use atheros_wifi.Bus.{
  a_ok, a_pending, Irqs, no_irqs, word, Custom, Bus, status_reg, intr_cause_reg, write_reg,
  read_reg, on_ok, unmask_interrupts,
}

abbrev pub wrbuf_spc_ava_reg : ℕ
wrbuf_spc_ava_reg = 0x200

abbrev pub rdbuf_byte_ava_reg : ℕ
rdbuf_byte_ava_reg = 0x300

abbrev pub wrbuf_watermark_reg : ℕ
wrbuf_watermark_reg = 0x1300

abbrev pub below_wmark : Irqs
below_wmark = record no_irqs { wrbuf_below_wmark = true }

unfoldable pub reset_write_buffer_water_mark : {D : Type 0} → Custom D → Bus D → ℕ × Bus D
reset_write_buffer_water_mark hw b =
    on_ok (write_reg hw b wrbuf_watermark_reg 0) (λ r. r)
      λ b'. write_reg hw b' intr_cause_reg (word below_wmark)

-- ATH_SPI_STATUS_RTC_STATE_MASK: the bits 1 and 2 of the status.
abbrev pub asleep : ℕ → Bool
asleep status = status / 2 % 4 == 2

-- Whether the space came free while the target fell asleep: then there is no need to wait.
abbrev pub Waits : Type 0 → Type 0
Waits D = ℕ × Bool × Bus D

pub resample : {D : Type 0} → Custom D → Bus D → Waits D
resample hw b =
    let (status, param, b1) = read_reg hw b wrbuf_spc_ava_reg in
    if status == a_ok
    then (let (status', b2) =
          reset_write_buffer_water_mark hw (record b1 { write_buffer_space = param }) in
        (status', false, b2))
    else (status, true, b1)

-- From the second reading of the status on.
pub doze : {D : Type 0} → Custom D → Bus D → Waits D
doze hw b =
    let (status, value, b1) =
      read_reg hw (record b { device = hw.usec_delay b.device 60 }) status_reg in
    if status == a_ok && asleep value then resample hw b1 else (status, true, b1)

pub check_sleep : {D : Type 0} → Custom D → Bus D → Waits D
check_sleep hw b =
    let (status, value, b1) = read_reg hw b status_reg in
    if status == a_ok && asleep value then doze hw b1 else (status, true, b1)

abbrev pub set_watermark : {D : Type 0} → Custom D → Bus D → ℕ → Waits D
set_watermark hw b level =
    let (status, b1) = write_reg hw b wrbuf_watermark_reg level in
    if status == a_ok then check_sleep hw b1 else (status, true, b1)

abbrev pub watermark_level : ℕ → ℕ → ℕ
watermark_level space len = (space + 2 ^ 32 - len) % 2 ^ 32

abbrev pub await : {D : Type 0} → Custom D → Waits D → ℕ × Bus D
await hw (status, wait, b) =
    if status == a_ok && wait
    then (a_pending, (unmask_interrupts hw (record b { write_wait = true }) below_wmark).1)
    else (status, b)

-- `Hcd_ProgramWriteBufferWaterMark`
pub program_write_buffer_water_mark : {D : Type 0} → Custom D → Bus D → ℕ → Outcome (ℕ × Bus D)
program_write_buffer_water_mark hw b len = do
  let level = watermark_level b.max_write_buffer_space len
  assert (ltb level b.max_write_buffer_space)
  ran (await hw (set_watermark hw b (if level == 0 then 1 else level)))

-- `Hcd_RefreshWriteBufferSpace`
unfoldable pub refresh_write_buffer_space : {D : Type 0} → Custom D → Bus D → Bus D
refresh_write_buffer_space hw b =
    let (status, param, b') = read_reg hw b wrbuf_spc_ava_reg in
    if status == a_ok then record b' { write_buffer_space = param } else b'
