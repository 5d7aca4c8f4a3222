-- ===== src/Bus/Start.antt =====
-- Start of the bus layer and its end, and the look-ahead.
pub mod Opened
use atheros_wifi.Prelude.{
  ℕ, ◌+◌, ◌*◌, ◌^◌, min, bit_and, bit_or, true, not, ltb, ◌==◌, if◌then◌else◌, Outcome, ran, ◌>>=◌,
  ◌>>◌, assert,
}
use atheros_wifi.Bus.{
  a_ok, Irqs, no_irqs, Custom, Bus, config_reg, swap16, write_reg, read_reg, on_ok,
  unmask_interrupts, enable_disable_hw_detect,
}
use atheros_wifi.Bus.Watermark.{
  wrbuf_spc_ava_reg, rdbuf_byte_ava_reg, reset_write_buffer_water_mark,
}
use atheros_wifi.Bus.Interrupt.{error_irqs}
use atheros_wifi.Bus.Request.{byte_swap, swap_16bit}

abbrev pub local_cpu_intr : Irqs
local_cpu_intr = record no_irqs { local_cpu_intr = true }

-- HW_SPI_FRAME_WIDTH_32 and HW_SPI_FRAME_WIDTH_8; the widths are those of ATH_TRANS_DS_...
abbrev pub data_width : ℕ → ℕ
data_width capabilities =
    if bit_and capabilities 8 == 0 then (if bit_and capabilities 1 == 0 then 1 else 0) else 3

abbrev pub ar4xxx_normal_clock_rate : ℕ
ar4xxx_normal_clock_rate = 24000000

-- ATH_SPI_CONFIG_MISO_MUXSEL_MASK_SHIFT, ATH_SPI_CONFIG_IO_ENABLE and the byte swapping.
abbrev pub first_config : ℕ → ℕ → ℕ
first_config clock width =
    let io = bit_or (if ltb ar4xxx_normal_clock_rate clock then 2 ^ 9 else 0) (2 ^ 7) in
    if width == 3
    then bit_or io byte_swap
    else (if width == 1 then bit_or io (bit_or swap_16bit byte_swap) else io)

-- The sources that are enabled from the start on.
abbrev pub open_irqs : {D : Type 0} → Custom D → Bus D → Bus D
open_irqs hw b = (unmask_interrupts hw (unmask_interrupts hw b error_irqs).1 local_cpu_intr).1

unfoldable pub opened : {D : Type 0} → Custom D → Bus D → Outcome (ℕ × Bus D)
opened hw b = do b' ← enable_disable_hw_detect hw (open_irqs hw b) true; ran (a_ok, b')

abbrev pub expected_max_write_buffer_space : ℕ
expected_max_write_buffer_space = 3163

-- What is read counts as the size of the whole buffer.
unfoldable pub measured : {D : Type 0} → Custom D → Bus D → Outcome (ℕ × Bus D)
measured hw b =
    let clocked = record b { device = hw.set_clock b.device b.operational_clock } in
    let (status, space, b1) = read_reg hw clocked wrbuf_spc_ava_reg in
    on_ok (status, record b1 { write_buffer_space = space }) ran
      λ b2. do
        assert (b2.write_buffer_space == expected_max_write_buffer_space)
        let b3 = record b2 { max_write_buffer_space = b2.write_buffer_space }
        on_ok (reset_write_buffer_water_mark hw b3) ran (opened hw)

-- `Hcd_Init`. The copy modes and the width for host access, which nothing reads, are left out, and
-- so are the last delay and the profile.
unfoldable pub hcd_init : {D : Type 0} → Custom D → Bus D → Outcome (ℕ × Bus D)
hcd_init hw b = do
  assert (not (bit_and b.capabilities 3 == 0))
  let width = data_width b.capabilities
  let config = first_config b.operational_clock width
  let start_clock = min ar4xxx_normal_clock_rate b.operational_clock
  let d = hw.usec_delay (hw.set_clock b.device start_clock) (b.power_up_delay * 1000)
  let b1 = record b { dma_data_width = width; config_shadow = config; device = d }
  on_ok (write_reg hw b1 config_reg config) ran (measured hw)

-- `Hcd_ReinitTarget`
unfoldable pub reinit_target : {D : Type 0} → Custom D → Bus D → ℕ × Bus D
reinit_target hw b =
    on_ok (write_reg hw b config_reg b.config_shadow) (λ r. r)
      λ b1. on_ok (reset_write_buffer_water_mark hw b1) (λ r. r) λ b2. (a_ok, open_irqs hw b2)

-- The two words of the look-ahead registers as one of 32 bits, their first byte lowest.
abbrev pub assembled : ℕ → ℕ → ℕ
assembled first second = swap16 first + swap16 second * 2 ^ 16

abbrev pub rdbuf_lookahead1_reg : ℕ
rdbuf_lookahead1_reg = 0x1400

abbrev pub rdbuf_lookahead2_reg : ℕ
rdbuf_lookahead2_reg = 0x1500

abbrev pub peek : {D : Type 0} → Custom D → Bus D → Outcome (ℕ × Bus D)
peek hw b =
    let (status, first, b1) = read_reg hw b rdbuf_lookahead1_reg in
    let (status', second, b2) = read_reg hw b1 rdbuf_lookahead2_reg in
    if status == a_ok
    then (if status' == a_ok
        then (do
          assert (not (assembled first second == 0))
          ran (a_ok, record b2 { lookahead = assembled first second }))
        else ran (status', b2))
    else ran (status, b1)

-- `Hcd_GetLookAhead`
unfoldable pub get_lookahead : {D : Type 0} → Custom D → Bus D → Outcome (ℕ × Bus D)
get_lookahead hw b =
    let (status, available, b1) = read_reg hw b rdbuf_byte_ava_reg in
    let b2 = record b1 { read_buffer_space = available } in
    if status == a_ok
    then (if ltb available 4 then ran (a_ok, b2) else peek hw b2)
    else ran (status, b1)
