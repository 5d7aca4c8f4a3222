-- ===== src/Bus.antt =====
-- common_src/hcd/spi_hcd.c: the bus layer, over the functions of custom_src that move bits on SPI.
-- This file has the state, the access to the registers of the target, and the interrupt mask.
pub mod Wire
pub mod Shadow
pub mod Watermark
pub mod Interrupt
pub mod External
pub mod Transfer
pub mod Request
pub mod Start
pub mod Device
mod Tests
use atheros_wifi.Prelude.{
  ℕ, zero, suc, ◌+◌, ◌-◌, ◌*◌, ◌/◌, ◌%◌, ◌^◌, ◌≤◌, ◌<◌, min, bit_and, bit_or, ◌≡◌, refl, sym, ap,
  ◌∙◌, ◌≢◌, ◌↔◌, ◌⊎◌, inl, inr, Bool, true, false, ◌&&◌, ◌||◌, not, Option, none, some, List, ◌∷◌,
  ◌++◌, map, arith, ltb, leb, ◌==◌, if◌then◌else◌, ltb→lt, lt→ltb, le→ltb, ==_iff, ==_refl, ==_ne,
  Bool-cases, Option-cases, length, get_elem?, get_or, set, take, drop, replicate, length-append,
  length-set, get_or-set_self, get_or-set_ne, length-take, length-drop, length-replicate,
  take-append, drop-append, take-drop, take-all, Outcome, ran, halted, ◌>>=◌, ◌>>◌, assert, Returns,
  Returns-mono, Returns-bind, Returns-first, passes, passes_at, add32, sub32, Mem, load, store,
  length-load, load-add, take-load, drop-load, load-store_self, load-store_below, load-store_above,
}
use atheros_wifi.Netbuf.Buffer.{Frag}

-- A_STATUS; a function of custom_src may return any value.
abbrev pub a_ok : ℕ
a_ok = 0

abbrev pub a_error : ℕ
a_error = 2 ^ 32 - 1

abbrev pub a_ecanceled : ℕ
a_ecanceled = 16

abbrev pub a_hardware : ℕ
a_hardware = 23

abbrev pub a_pending : ℕ
a_pending = 24

-- A word of the interrupt registers: the bits that ATH_SPI_INTR_... name, from bit 10 down. The
-- driver enables no other, and it masks what it reads with what it has enabled.
pub record Irqs : Type 0 where
  pub wrbuf_below_wmark : Bool
  pub rd_done : Bool
  pub wr_done : Bool
  pub cpu_intr : Bool
  pub cpu_on : Bool
  pub counter_intr : Bool
  pub local_cpu_intr : Bool
  pub address_error : Bool
  pub wrbuf_error : Bool
  pub rdbuf_error : Bool
  pub pkt_avail : Bool

abbrev pub no_irqs : Irqs
no_irqs = record {
  wrbuf_below_wmark = false;
  rd_done = false;
  wr_done = false;
  cpu_intr = false;
  cpu_on = false;
  counter_intr = false;
  local_cpu_intr = false;
  address_error = false;
  wrbuf_error = false;
  rdbuf_error = false;
  pkt_avail = false;
}

-- An operation on each bit; the bit of the mask comes first.
abbrev pub bitwise : (Bool → Bool → Bool) → Irqs → Irqs → Irqs
bitwise f m s = record {
  wrbuf_below_wmark = f m.wrbuf_below_wmark s.wrbuf_below_wmark;
  rd_done = f m.rd_done s.rd_done;
  wr_done = f m.wr_done s.wr_done;
  cpu_intr = f m.cpu_intr s.cpu_intr;
  cpu_on = f m.cpu_on s.cpu_on;
  counter_intr = f m.counter_intr s.counter_intr;
  local_cpu_intr = f m.local_cpu_intr s.local_cpu_intr;
  address_error = f m.address_error s.address_error;
  wrbuf_error = f m.wrbuf_error s.wrbuf_error;
  rdbuf_error = f m.rdbuf_error s.rdbuf_error;
  pkt_avail = f m.pkt_avail s.pkt_avail;
}

-- `s | m`, `s & ~m` and `s & m`
abbrev pub join : Irqs → Irqs → Irqs
join m s = bitwise (λ x y. if x then true else y) m s

abbrev pub without : Irqs → Irqs → Irqs
without m s = bitwise (λ x y. if x then false else y) m s

abbrev pub meet : Irqs → Irqs → Irqs
meet m s = bitwise (λ x y. if x then y else false) m s

abbrev pub any : Irqs → Bool
any s =
    s.wrbuf_below_wmark || s.rd_done || s.wr_done || s.cpu_intr || s.cpu_on || s.counter_intr
    || s.local_cpu_intr || s.address_error || s.wrbuf_error || s.rdbuf_error || s.pkt_avail

abbrev pub bit : Bool → ℕ
bit true = 1
bit false = 0

-- The number of a word, and the word of a number.
unfoldable pub word : Irqs → ℕ
word s =
    bit s.wrbuf_below_wmark * 2 ^ 10
    + bit s.rd_done * 2 ^ 9
    + bit s.wr_done * 2 ^ 8
    + bit s.cpu_intr * 2 ^ 7
    + bit s.cpu_on * 2 ^ 6
    + bit s.counter_intr * 2 ^ 5
    + bit s.local_cpu_intr * 2 ^ 4
    + bit s.address_error * 2 ^ 3
    + bit s.wrbuf_error * 2 ^ 2
    + bit s.rdbuf_error * 2
    + bit s.pkt_avail

unfoldable pub irqs_of : ℕ → Irqs
irqs_of v = record {
  wrbuf_below_wmark = v / 2 ^ 10 % 2 == 1;
  rd_done = v / 2 ^ 9 % 2 == 1;
  wr_done = v / 2 ^ 8 % 2 == 1;
  cpu_intr = v / 2 ^ 7 % 2 == 1;
  cpu_on = v / 2 ^ 6 % 2 == 1;
  counter_intr = v / 2 ^ 5 % 2 == 1;
  local_cpu_intr = v / 2 ^ 4 % 2 == 1;
  address_error = v / 2 ^ 3 % 2 == 1;
  wrbuf_error = v / 2 ^ 2 % 2 == 1;
  rdbuf_error = v / 2 % 2 == 1;
  pkt_avail = v % 2 == 1;
}

-- The functions of custom_src: each changes a state `D`, that of the target, of the memory and of
-- the host's controller, and those that may fail return a status.
pub record Custom (D : Type 0) : Type 0 where
  pub inout_token : D → ℕ → ℕ → ℕ × ℕ × D
  pub inout_buffer : D → Frag → Bool → Bool → ℕ × D
  pub start_transfer : D → Bool → ℕ × D
  pub complete_transfer : D → Bool → ℕ × D
  pub enable_disable_spi_irq : D → Bool → D
  pub usec_delay : D → ℕ → D
  pub set_clock : D → ℕ → D

-- The part of A_DRIVER_CONTEXT that the bus layer uses, its `spi_hcd` included: first five of the
-- `booleans` (SDHD_BOOL_...).
pub record Bus (D : Type 0) : Type 0 where
  pub fatal_error : Bool
  pub shutdown : Bool
  pub dma_in_prog : Bool
  pub dma_complete : Bool
  pub write_wait : Bool
  pub shadow : Irqs
  pub irq_mask : Irqs
  pub config_shadow : ℕ
  pub capabilities : ℕ
  pub dma_data_width : ℕ
  pub irqs_enabled : Bool
  pub irq_detected : Bool
  pub cpu_interrupt : Bool
  pub pending_irq_acks : ℕ
  pub read_buffer_space : ℕ
  pub write_buffer_space : ℕ
  pub max_write_buffer_space : ℕ
  pub lookahead : ℕ
  pub block_size : ℕ
  pub pad_buffer : ℕ
  pub operational_clock : ℕ
  pub power_up_delay : ℕ
  pub device : D

abbrev pub config_reg : ℕ
config_reg = 0x400

abbrev pub status_reg : ℕ
status_reg = 0x500

abbrev pub intr_cause_reg : ℕ
intr_cause_reg = 0xC00

abbrev pub intr_enable_reg : ℕ
intr_enable_reg = 0xD00

-- A_CPU2BE16 and A_BE2CPU16 of a little-endian CPU. The two halves have no bit in common.
unfoldable pub swap16 : ℕ → ℕ
swap16 x = x % 256 * 256 + x / 256 % 256

-- `OUT_TOKEN_CMD_ADDR_DMA_WRITE`; ATH_TRANS_DS_16 stands for two bytes.
unfoldable pub out_token : {D : Type 0} → Custom D → D → ℕ → ℕ × D
out_token hw d address = let (status, _, d') = hw.inout_token d (swap16 address) 2 in (status, d')

abbrev pub cmd_addr_read : ℕ
cmd_addr_read = 2 ^ 15

abbrev pub cmd_address_internal : ℕ
cmd_address_internal = 2 ^ 14

unfoldable pub do_pio_write_internal : {D : Type 0} → Custom D → D → ℕ → ℕ → ℕ × D
do_pio_write_internal hw d address value =
    let low = swap16 (bit_or address cmd_address_internal) in
    let (status, _, d') = hw.inout_token d (low + swap16 value * 2 ^ 16) 4 in (status, d')

unfoldable pub do_pio_read_internal : {D : Type 0} → Custom D → D → ℕ → ℕ × ℕ × D
do_pio_read_internal hw d address =
    let low = swap16 (bit_or (bit_or address cmd_address_internal) cmd_addr_read) in
    let (status, data_in, d') = hw.inout_token d low 4 in (status, swap16 (data_in / 2 ^ 16), d')

-- The accesses of a context to the registers of its target.
abbrev pub write_reg : {D : Type 0} → Custom D → Bus D → ℕ → ℕ → ℕ × Bus D
write_reg hw b address value =
    let (status, d) = do_pio_write_internal hw b.device address value in
    (status, record b { device = d })

abbrev pub read_reg : {D : Type 0} → Custom D → Bus D → ℕ → ℕ × ℕ × Bus D
read_reg hw b address =
    let (status, value, d) = do_pio_read_internal hw b.device address in
    (status, value, record b { device = d })

-- A status other than A_OK breaks off.
abbrev pub on_ok {ℓ} : {S : Type 0} {R : Type ℓ} → ℕ × S → (ℕ × S → R) → (S → R) → R
on_ok (status, s) stop go = if status == a_ok then go s else stop (status, s)

-- `MaskSPIInterrupts`. It calls the other function where the mask and the shadow still meet, which
-- they never do (Bus.Shadow).
unfoldable pub mask_spi_interrupts : {D : Type 0} → Custom D → Bus D → Irqs → ℕ × Bus D
mask_spi_interrupts hw b mask =
    let b' = record b { shadow = without mask b.shadow } in
    write_reg hw b' intr_enable_reg (word b'.shadow)

unfoldable pub unmask_interrupts : {D : Type 0} → Custom D → Bus D → Irqs → ℕ × Bus D
unmask_interrupts hw b mask =
    let b' = record b { shadow = join mask b.shadow } in
    let b'' = if any (meet mask b'.shadow) then b' else (mask_spi_interrupts hw b' mask).1 in
    write_reg hw b'' intr_enable_reg (word b''.shadow)

unfoldable pub enable_disable_spi_irq : {D : Type 0} → Custom D → Bus D → Bool → Bus D
enable_disable_spi_irq hw b enable =
    let changed = record b {
      irqs_enabled = enable;
      device = hw.enable_disable_spi_irq b.device enable;
    } in
    if enable
    then (if b.irqs_enabled then b else changed)
    else (if b.irqs_enabled then changed else b)

-- HW_SPI_INT_EDGE_DETECT
abbrev pub edge_detect : ℕ
edge_detect = 0x80

unfoldable pub enable_disable_hw_detect : {D : Type 0} → Custom D → Bus D → Bool → Outcome (Bus D)
enable_disable_hw_detect hw b enable =
    if not (bit_and b.capabilities edge_detect == 0) && enable
    then (do
      let (status, b1) = write_reg hw b intr_enable_reg 0
      assert (status == a_ok)
      let b2 = enable_disable_spi_irq hw b1 true
      let (status', b3) = write_reg hw b2 intr_enable_reg (word b2.shadow)
      assert (status' == a_ok)
      ran b3)
    else ran (enable_disable_spi_irq hw b enable)
