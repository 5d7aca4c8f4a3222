-- ===== src/Bus/External.antt =====
-- Access to the registers of the core, which the target performs on the host's behalf.
pub mod Polling
use atheros_wifi.Prelude.{
  ℕ, zero, suc, ◌%◌, ◌^◌, bit_and, bit_or, Bool, not, some, ◌==◌, if◌then◌else◌, Outcome, ran,
  ◌>>=◌, ◌>>◌, assert,
}
use atheros_wifi.Netbuf.Buffer.{Netbuf, to_len, configure}
use atheros_wifi.Bus.{
  a_ok, a_error, a_pending, word, Custom, Bus, status_reg, intr_cause_reg, write_reg, on_ok,
  do_pio_read_internal, out_token, cmd_addr_read, cmd_address_internal,
}
use atheros_wifi.Bus.Interrupt.{access_done}
use atheros_wifi.Bus.Transfer.{is_read, transfer_data}

abbrev pub host_ctrl_byte_size_reg : ℕ
host_ctrl_byte_size_reg = 0x600

abbrev pub host_ctrl_config_reg : ℕ
host_ctrl_config_reg = 0x700

abbrev pub host_ctrl_rd_port_reg : ℕ
host_ctrl_rd_port_reg = 0x800

abbrev pub host_ctrl_wr_port_reg : ℕ
host_ctrl_wr_port_reg = 0xA00

-- The transfer through a port. It must not be asynchronous.
abbrev pub through_port : {D : Type 0} → Custom D → Netbuf → Bus D → Outcome (ℕ × Bus D)
through_port hw req b = do
  (status, b') ← transfer_data hw b req
  assert (not (status == a_pending))
  ran (status, b')

-- A command and address of one of the ports.
abbrev pub port : {D : Type 0} → Custom D → Bus D → ℕ → ℕ × Bus D
port hw b address =
    let (status, d) = out_token hw b.device address in (status, record b { device = d })

-- `HandleExternalReadDone`
unfoldable pub handle_external_read_done :
    {D : Type 0} → Custom D → Bus D → Netbuf → Outcome (ℕ × Bus D)
handle_external_read_done hw b req =
    let address = bit_or (bit_or host_ctrl_rd_port_reg cmd_address_internal) cmd_addr_read in
    on_ok (port hw b address) ran (through_port hw req)

-- The loop that polls the status, with `retry` attempts: the attempts that are left. A failed
-- reading ends it as well.
unfoldable pub poll : {D : Type 0} → Custom D → (retry : ℕ) → D → ℕ × D
poll hw zero d = (0, d)
poll hw (suc retry) d =
    let (status, value, d') = do_pio_read_internal hw d status_reg in
    let again = poll hw retry (if retry == 0 then d' else hw.usec_delay d' 1000) in
    if status == a_ok then (if value % 2 == 1 then (suc retry, d') else again) else (suc retry, d')

abbrev pub write_port : {D : Type 0} → Custom D → Bus D → Netbuf → Outcome (ℕ × Bus D)
write_port hw b req =
    if is_read req
    then ran (a_ok, b)
    else on_ok (port hw b (bit_or host_ctrl_wr_port_reg cmd_address_internal)) ran
        (through_port hw req)

abbrev pub size_word : Netbuf → ℕ
size_word req = bit_or (if bit_and req.trans.cmd 0x20 == 0 then 0 else 2 ^ 6) (to_len req)

-- ATH_SPI_HOST_CTRL_CONFIG_ENABLE and ATH_SPI_HOST_CTRL_CONFIG_DIR_WRITE
abbrev pub config_word : Netbuf → ℕ
config_word req = bit_or (bit_or (2 ^ 15) (if is_read req then 0 else 2 ^ 14)) req.trans.address

-- What the read port held and the end of the access: the status of the transfer is lost.
abbrev pub empty_port : {D : Type 0} → Custom D → Netbuf → Bus D → Outcome (ℕ × Bus D)
empty_port hw req b = do
  (_, b') ← if is_read req then handle_external_read_done hw b req else ran (a_ok, b)
  ran (write_reg hw b' intr_cause_reg (word access_done))

abbrev pub await_done : {D : Type 0} → Custom D → Netbuf → Bus D → Outcome (ℕ × Bus D)
await_done hw req b =
    let (left, d) = poll hw 200 b.device in
    let b' = record b { device = d } in
    if left == 0 then ran (a_error, b') else empty_port hw req b'

-- `Hcd_DoPioExternalAccess`
unfoldable pub do_pio_external_access :
    {D : Type 0} → Custom D → Bus D → Netbuf → Outcome (ℕ × Bus D)
do_pio_external_access hw b req =
    on_ok (write_reg hw b host_ctrl_byte_size_reg (size_word req)) ran λ b1. do
      r ← write_port hw b1 req
      on_ok r ran λ b2.
          on_ok (write_reg hw b2 host_ctrl_config_reg (config_word req)) ran (await_done hw req)

abbrev pub cpu_int_status_address : ℕ
cpu_int_status_address = 0x401

-- `Hcd_ReadCPUInterrupt`, with `data` for the address of the byte that it reads into.
unfoldable pub read_cpu_interrupt : {D : Type 0} → Custom D → Bus D → ℕ → Outcome (Bool × Bus D)
read_cpu_interrupt hw b data_at = do
  let buffer = configure (some data_at) 0 1 1
  let req = record buffer {
    trans = record buffer.trans {
      cmd = 0x90;
      address = cpu_int_status_address;
      transfer_length = 1;
    };
  }
  (status, b') ← do_pio_external_access hw b req
  ran (status == a_ok, b')
