-- ===== src/Bus/Tests.antt =====
-- Tests of the bus layer on one target, and instances of its theorems.
use atheros_wifi.Prelude.{
  ℕ, ◌+◌, ◌-◌, ◌≡◌, refl, ◌≢◌, inr, true, false, arith, if◌then◌else◌, ran, halted, Returns,
}
use atheros_wifi.Netbuf.Buffer.{
  configure, to_len, sum_frags, get_fragment, Netbuf, zeroed, zero_trans,
}
use atheros_wifi.Bus.{
  a_pending, no_irqs, word, irqs_of, swap16, write_reg, mask_spi_interrupts, unmask_interrupts,
  do_pio_write_internal, do_pio_read_internal, out_token, enable_disable_spi_irq,
  enable_disable_hw_detect,
}
use atheros_wifi.Bus.Shadow.{on_edge}
use atheros_wifi.Bus.Device.{
  put, find, to_write, to_read, Target, target, target-Answers, target-Moves, target-enabled,
  target-watermark, open_mask, reporting, over, small, at_packet, at_error, small-IsRequest,
}
use atheros_wifi.Bus.Watermark.{
  reset_write_buffer_water_mark, program_write_buffer_water_mark, refresh_write_buffer_space,
}
use atheros_wifi.Bus.Watermark.Level.{
  Programmed, sleeps_twice, level, program_write_buffer_water_mark_lem,
}
use atheros_wifi.Bus.Interrupt.{
  resume_write, on_below_wmark, on_function_irqs, on_sources, on_interrupts, bus_interrupt,
}
use atheros_wifi.Bus.Interrupt.Sources.{remaining, After}
use atheros_wifi.Bus.Interrupt.Cause.{seen_by, is_error, bus_interrupt_lem, bus_interrupt-error}
use atheros_wifi.Bus.Transfer.{buffers, transfer_data}
use atheros_wifi.Bus.Transfer.Bytes.{total, transfer_data_lem}
use atheros_wifi.Bus.External.{
  poll, handle_external_read_done, write_port, size_word, config_word, do_pio_external_access,
  read_cpu_interrupt,
}
use atheros_wifi.Bus.External.Polling.{Polled, IsAccess, do_pio_external_access_lem}
use atheros_wifi.Bus.Request.{
  swap_settings, configure_byte_swap, do_dma_op, hcd_request, transfer_complete,
}
use atheros_wifi.Bus.Request.Ownership.{Requested}
use atheros_wifi.Bus.Request.Kept.{KeepsMask}
use atheros_wifi.Bus.Request.Mask.{hcd_request_lem}
use atheros_wifi.Bus.Start.{opened, measured, hcd_init, reinit_target, get_lookahead}
use atheros_wifi.Bus.Start.Opened.{first_irqs, space_of, configured, started, hcd_init_lem}

after_packet :
    bus_interrupt target at_packet
    ≡ ran (
      true,
      record at_packet {
        shadow = record open_mask { pkt_avail = false; wrbuf_below_wmark = false };
        write_wait = false;
        write_buffer_space = 3163;
        irqs_enabled = true;
        pending_irq_acks = 2;
        device = record at_packet.device { enabled = 30 };
      },
    )
unfolding bus_interrupt on_interrupts on_sources on_below_wmark resume_write on_function_irqs
    mask_spi_interrupts reset_write_buffer_water_mark enable_disable_hw_detect
    enable_disable_spi_irq do_pio_read_internal do_pio_write_internal target put find to_write
    to_read swap16 irqs_of word
after_packet = refl

at_packet_seen :
    seen_by target at_packet ≡ record no_irqs { pkt_avail = true; wrbuf_below_wmark = true }
unfolding do_pio_read_internal target find to_read swap16 irqs_of
at_packet_seen = refl

at_packet_fine : is_error target at_packet ≡ false
unfolding do_pio_read_internal target find to_read swap16 irqs_of
at_packet_fine = refl

at_error_seen : is_error target at_error ≡ true
unfolding do_pio_read_internal target find to_read swap16 irqs_of
at_error_seen = refl

bus_interrupt_lem_example :
    let seen = seen_by target at_packet in
    let acks : ℕ = if seen.pkt_avail then 2 else 0 in
    (d : Target) × (space : ℕ) × (d.enabled ≡ word (remaining seen open_mask))
    × (bus_interrupt target at_packet
        ≡ ran (
          true,
          record (After at_packet seen d space) { irqs_enabled = true; pending_irq_acks = acks },
        ))
bus_interrupt_lem_example =
    bus_interrupt_lem target (λ d. d.enabled) target-Answers target-enabled at_packet refl refl
      at_packet_fine

bus_interrupt-error_example :
    (d : Target) × (d.enabled ≡ (if on_edge at_error then word open_mask else 0))
    × (bus_interrupt target at_error
        ≡ ran (true, record at_error { fatal_error = true; irqs_enabled = true; device = d }))
bus_interrupt-error_example =
    bus_interrupt-error target (λ d. d.enabled) target-Answers target-enabled at_error refl
      at_error_seen

program_write_buffer_water_mark_lem_example :
    Programmed target
      (λ d. d.watermark)
      (λ d. d.enabled)
      (sleeps_twice target
        (do_pio_write_internal target at_packet.device 0x1300 (level at_packet 200)).1)
      at_packet
      200
      (program_write_buffer_water_mark target at_packet 200)
program_write_buffer_water_mark_lem_example =
    program_write_buffer_water_mark_lem target (λ d. d.watermark) (λ d. d.enabled) target-Answers
      target-watermark target-enabled at_packet 200 (omega arith) (omega arith) (omega arith) refl

transfer_data_lem_example :
    (status : ℕ) × (d : Target) × (last : Target) × (status
      ≡ (target.complete_transfer last false).0)
    × (d.moved ≡ 0 + total small + (16 - total small))
    × (transfer_data target at_packet small ≡ ran (status, record at_packet { device = d }))
transfer_data_lem_example =
    let (few, fits, pad) = small-IsRequest in
    transfer_data_lem target (λ d. d.moved) target-Moves at_packet small few fits pad

-- The address 0x87F0 of a command of `small` is that of no register to write.
small-KeepsMask : KeepsMask target (λ d. d.enabled) small
unfolding target put out_token swap16 to_write
small-KeepsMask = record {
  token = λ d. refl;
  buffer = λ d f rd sync. refl;
  start = λ d sync. refl;
  end_ = λ d sync. refl;
}

hcd_request_lem_example :
    Requested at_packet small (hcd_request target at_packet small)
    × Returns (λ (_, b). b.device.enabled ≡ word b.shadow) (hcd_request target at_packet small)
hcd_request_lem_example =
    hcd_request_lem target (λ d. d.enabled) target-enabled (λ d. d.moved) at_packet small
      target-Answers target-Moves small-KeepsMask small-IsRequest (inr (inr refl)) refl refl refl

-- The transfer goes to the DMA engine, and its end is noted.
requested_then_complete :
    Returns
      (λ (status, b).
        (status ≡ a_pending)
        × (b.irq_mask.pkt_avail ≡ true)
        × ((transfer_complete b).dma_complete ≡ true)
        × ((transfer_complete b).dma_in_prog ≡ false))
      (hcd_request target at_packet small)
unfolding do_pio_read_internal do_pio_write_internal target put find to_write to_read swap16 irqs_of
    word out_token transfer_data buffers get_fragment mask_spi_interrupts unmask_interrupts
    enable_disable_hw_detect enable_disable_spi_irq hcd_request do_dma_op configure_byte_swap
    swap_settings transfer_complete
requested_then_complete = (refl, refl, refl, refl)

-- The read of a byte through the core's ports.
abbrev byte_access : Netbuf
byte_access = record zeroed {
  start = 4160;
  tail = 4161;
  trans = record zero_trans { transfer_length = 1; address = 0x401; cmd = 0x90 };
}

byte_IsAccess : IsAccess at_packet byte_access
unfolding get_fragment
byte_IsAccess = ((omega arith, omega arith, omega arith), refl)

target-ends : (d : Target) → (target.complete_transfer d true).0 ≡ 0
unfolding target
target-ends d = refl

do_pio_external_access_lem_example :
    let b1 = (write_reg target at_packet 0x600 (size_word byte_access)).1 in
    (d : Target) × (write_port target b1 byte_access ≡ ran (0, record b1 { device = d }))
    × Polled target
        (λ d. d.moved)
        target-Answers
        target-Moves
        target-ends
        at_packet
        byte_access
        (do_pio_write_internal target d 0x700 (config_word byte_access)).1
do_pio_external_access_lem_example =
    do_pio_external_access_lem target (λ d. d.moved) target-Answers target-Moves target-ends
      at_packet byte_access byte_IsAccess

-- With the end of the access in the status, its byte is read.
byte_read :
    Returns (λ (done, b). done ≡ true) (read_cpu_interrupt target (over (reporting 0 1)) 4096)
unfolding do_pio_read_internal do_pio_write_internal target put find to_write to_read swap16 irqs_of
    word out_token transfer_data buffers get_fragment mask_spi_interrupts unmask_interrupts
    enable_disable_hw_detect enable_disable_spi_irq do_pio_external_access poll
    handle_external_read_done read_cpu_interrupt configure to_len sum_frags
byte_read = refl

looked_ahead :
    get_lookahead target at_packet
    ≡ ran (0, record at_packet { read_buffer_space = 40; lookahead = 0x04030201 })
unfolding do_pio_read_internal do_pio_write_internal target put find to_write to_read swap16 irqs_of
    word out_token get_lookahead
looked_ahead = refl

hcd_init_lem_example :
    ((space_of target (configured target at_packet)).1 ≡ 3163
      → (d : Target) × (d.enabled ≡ word (first_irqs open_mask))
        × (hcd_init target at_packet ≡ ran (0, started (configured target at_packet) d)))
    × ((space_of target (configured target at_packet)).1 ≢ 3163
        → hcd_init target at_packet ≡ halted)
hcd_init_lem_example =
    hcd_init_lem target (λ d. d.enabled) target-Answers target-enabled at_packet refl

-- The target of the tests has 3163 bytes of room.
started_up :
    Returns (λ (status, b). (status ≡ 0) × (b.irqs_enabled ≡ true)) (hcd_init target at_packet)
unfolding do_pio_read_internal do_pio_write_internal target put find to_write to_read swap16 irqs_of
    word out_token hcd_init opened measured reset_write_buffer_water_mark unmask_interrupts
    enable_disable_hw_detect enable_disable_spi_irq
started_up = (refl, refl)

restarted : (reinit_target target at_packet).0 ≡ 0
unfolding do_pio_read_internal do_pio_write_internal target put find to_write to_read swap16 irqs_of
    word out_token reinit_target reset_write_buffer_water_mark unmask_interrupts
restarted = refl

refreshed : (refresh_write_buffer_space target at_packet).write_buffer_space ≡ 3163
unfolding do_pio_read_internal do_pio_write_internal target put find to_write to_read swap16 irqs_of
    word out_token refresh_write_buffer_space
refreshed = refl
