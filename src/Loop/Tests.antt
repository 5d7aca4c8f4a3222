-- ===== src/Loop/Tests.antt =====
-- Tests of the driver's loop on the target of Bus.Device, and instances of its theorems.
use atheros_wifi.Prelude.{◌≡◌, refl, true, false, none, some, [], ◌∷◌, length, ran, halted, Returns}
use atheros_wifi.Netbuf.Buffer.{Netbuf, zeroed, pull, rx_complete, tx_complete}
use atheros_wifi.Htc.{Driver}
use atheros_wifi.Bus.{
  no_irqs, word, irqs_of, swap16, mask_spi_interrupts, unmask_interrupts, do_pio_write_internal,
  do_pio_read_internal, out_token, enable_disable_spi_irq, enable_disable_hw_detect,
}
use atheros_wifi.Bus.Transfer.{transfer_data, buffers}
use atheros_wifi.Netbuf.Buffer.{get_fragment, to_len, sum_frags}
use atheros_wifi.Htc.Frame.{
  process_recv_header, process_tx_complete, prepare_recv_packet, send_packet,
}
use atheros_wifi.Transmit.{send_padded_len}
use atheros_wifi.Bus.Interrupt.{bus_interrupt}
use atheros_wifi.Bus.Start.{get_lookahead}
use atheros_wifi.Netbuf.Buffer
use atheros_wifi.Bus.Request.{
  hcd_request, do_dma_op, configure_byte_swap, swap_settings, transfer_complete,
}
use atheros_wifi.Bus.Device.{put, find, to_write, to_read, Target, target, small, at_packet}
use atheros_wifi.Loop.{
  callback, complete_request, get_mbox_address, Loop, interrupt_handler, submit_request,
  post_process_request, recv_packet, driver_send_packet, process_completed, process_pending,
}
use atheros_wifi.Loop.Receive.{
  take_buffer, no_packet, clear_packet, look, IfReady, rx_ready, rx_ready_lem,
}

abbrev driver : Driver
driver = record {
  credit_count = 3;
  credit_size = 1664;
  htc_credit_init = 1;
  htc_start = true;
  cpu_interrupt_cause = 0;
  look_ahead = 0;
  block_mask = 15;
  ep = λ _. record {
    max_msg_length = 1500;
    service_id = 0;
    int_credits = 0;
    int_credit_counter = 0;
    rpt_credit_counter = 0;
    ep_idx = 0;
    credits = 3;
    max_credits = 3;
    seq_no = 0;
  };
}

abbrev idle : Loop Target
idle = record {
  bus = record at_packet { pending_irq_acks = 2 };
  htc = driver;
  mem = λ _. 0;
  rx_buffer_status = true;
  rx_req = none;
  enabled_spi_ints = record no_irqs { pkt_avail = true };
  mbox_address = 0x800;
  current = none;
  completed = [];
}

abbrev at_work : Loop Target
at_work = record idle {
  bus = record idle.bus {
    dma_in_prog = true;
    shadow = record at_packet.shadow { pkt_avail = false };
    irq_mask = record no_irqs { pkt_avail = true };
    config_shadow = 132;
    irqs_enabled = false;
    device = record at_packet.device { enabled = 1054; moved = 16 };
  };
  current = some (record small { trans = record small.trans { status = 24 } });
}

-- The transfer's end pulls the HTC header off a request that was sent, for `Api_TxComplete`, and the packet interrupt is enabled again.
handed_back :
    Returns
      (λ l.
        (length l.completed ≡ 1) × (l.bus.dma_complete ≡ false) × (l.bus.shadow ≡ at_packet.shadow))
      (process_completed target (record at_work {
        bus = transfer_complete at_work.bus;
        current = some (record small { trans = record small.trans { cb = some tx_complete } });
      }))
unfolding callback process_tx_complete pull process_completed complete_request unmask_interrupts
    transfer_complete
handed_back = (refl, refl, refl)

-- A received frame whose header is not that of the look-ahead stops the driver.
bad_header :
    process_completed target (record at_work {
      bus = transfer_complete at_work.bus;
      current =
          some
            (record small { trans = record small.trans { cb = some rx_complete; lookahead = 7 } });
    })
    ≡ halted
unfolding callback process_recv_header process_completed complete_request unmask_interrupts
    transfer_complete to_len sum_frags
bad_header = refl

-- While the DMA engine owns the bus, an interrupt is put off: the target still reports it.
held_off :
    process_pending target (record at_work { bus = interrupt_handler target at_work.bus })
    ≡ ran (record at_work { bus = record at_work.bus { irq_detected = false } })
unfolding process_pending process_completed bus_interrupt interrupt_handler enable_disable_spi_irq
held_off = refl

-- A packet of 16 bytes for endpoint 2, of which 40 bytes can be read with its header.
abbrev announcing : Loop Target
announcing = record idle {
  bus = record idle.bus {
    device = record at_packet.device {
      readings =
          0 ∷ 0 ∷ 3163 ∷ 40 ∷ 0 ∷ 0 ∷ 0 ∷ 0 ∷ 0 ∷ 0 ∷ 0 ∷ 0 ∷ 1 ∷ 0 ∷ 0 ∷ 0 ∷ 0 ∷ 0 ∷ 0 ∷ 0 ∷ 0x0200
          ∷ 0x1000 ∷ [];
    };
  };
}

looks : Returns (λ _. Unit) (look target (clear_packet target announcing.bus).1)
unfolding look clear_packet get_lookahead do_pio_read_internal do_pio_write_internal target put find
    to_write to_read swap16 irqs_of word out_token
looks = tt

rx_ready_lem_example : Returns (IfReady announcing) (rx_ready target (λ _. some small) announcing)
rx_ready_lem_example = rx_ready_lem target (λ _. some small) announcing looks

receives :
    Returns
      (λ (ready, l). (ready ≡ true) × (l.bus.lookahead ≡ 0x00100002))
      (rx_ready target (λ _. some small) announcing)
unfolding rx_ready take_buffer look clear_packet get_lookahead send_padded_len do_pio_read_internal
    do_pio_write_internal target put find to_write to_read swap16 irqs_of word out_token
receives = (refl, refl)

-- Nothing to read: the packet interrupt is enabled again.
waits :
    Returns
      (λ (ready, l).
        (ready ≡ false) × (l.bus.pending_irq_acks ≡ 0) × (l.bus.shadow.pkt_avail ≡ true))
      (rx_ready target
        (λ _. some small)
        (record idle {
          bus = record idle.bus { device = record at_packet.device { readings = [] } };
        }))
unfolding rx_ready take_buffer look no_packet unmask_interrupts clear_packet get_lookahead
    send_padded_len do_pio_read_internal do_pio_write_internal target put find to_write to_read
    swap16 irqs_of word out_token
waits = (refl, refl, refl)

-- Both directions use the mailbox that ends with the last byte of the request.
received :
    Returns
      (λ (status, l). (status ≡ 24) × (l.bus.dma_in_prog ≡ true))
      (recv_packet target (record idle { bus = record idle.bus { lookahead = 0x00060002 } }) small)
unfolding recv_packet prepare_recv_packet Buffer.put get_mbox_address to_len sum_frags
    submit_request post_process_request do_pio_read_internal do_pio_write_internal target put find
    to_write to_read swap16 irqs_of word out_token transfer_data buffers get_fragment
    mask_spi_interrupts unmask_interrupts enable_disable_hw_detect enable_disable_spi_irq
    hcd_request do_dma_op configure_byte_swap swap_settings
received = (refl, refl)

sent :
    Returns
      (λ (status, l). (status ≡ 24) × (l.bus.dma_in_prog ≡ true))
      (driver_send_packet target idle
        (record small { trans = record small.trans { credits = 1; epid = 1 } }))
unfolding driver_send_packet send_packet get_mbox_address to_len sum_frags submit_request
    post_process_request send_padded_len do_pio_read_internal do_pio_write_internal target put find
    to_write to_read swap16 irqs_of word out_token transfer_data buffers get_fragment
    mask_spi_interrupts unmask_interrupts enable_disable_hw_detect enable_disable_spi_irq
    hcd_request do_dma_op configure_byte_swap swap_settings
sent = (refl, refl)
