-- ===== src/Transmit/Tests.antt =====
-- A queue of three requests, and the theorems at it.
use atheros_wifi.Prelude.{ℕ, ◌≡◌, refl, true, false, some, [], ◌∷◌, ◌++◌, arith, ran, Returns}
use atheros_wifi.Util.{get_endpoint}
use atheros_wifi.Netbuf.Buffer.{Netbuf, zeroed, zero_trans, tx_complete, to_len, sum_frags}
use atheros_wifi.Htc.{get_credit_counter_update, read_credit_counter, count_credits, Endpoint}
use atheros_wifi.Htc.Account.{Accounted}
use atheros_wifi.Transmit.{
  acquire_credits, check_room, Hcd, Tx, submit_tx_request, submit_ep0_tx_request,
  drop_tx_data_packets, send_padded_len, tx_ready,
}
use atheros_wifi.Transmit.Purge.{drop_tx_data_packets_lem}
use atheros_wifi.Transmit.Ready.{IsTx, Fit, CanSend, tx_ready_lem}
use atheros_wifi.Htc.Frame.{send_packet}
use atheros_wifi.Transmit.Send.{Sent, ready_sends}
use atheros_wifi.Transmit.Submit.{CanSubmit, IsPrepared, submit_lem}

abbrev request : ℕ → Netbuf
request epid = record zeroed {
  head = 4032;
  start = 4096;
  tail = 4120;
  finish = 4200;
  trans = record zero_trans { credits = 1; epid = epid; cb = some tx_complete };
}

abbrev endpoint : Endpoint
endpoint = record {
  max_msg_length = 4144;
  service_id = 0x101;
  int_credits = 0;
  int_credit_counter = 0;
  rpt_credit_counter = 0;
  ep_idx = 2;
  credits = 0;
  max_credits = 4;
  seq_no = 0;
}

abbrev idle : Tx
idle = record {
  fatal_error = false;
  dma_in_prog = false;
  dma_complete = false;
  spi = record { write_buffer_space = 0; write_wait = false };
  credit_deadlock = true;
  credit_deadlock_counter = 2;
  rx_buffer_status = false;
  tx_queue = request 2 ∷ request 1 ∷ request 3 ∷ [];
  completed = [];
  htc = record {
    credit_count = 6;
    credit_size = 1664;
    htc_credit_init = 1;
    htc_start = true;
    cpu_interrupt_cause = 0;
    look_ahead = 0;
    block_mask = 31;
    ep = λ _. endpoint;
  };
}

-- The counter of endpoint 2 shows three credits.
abbrev bus : Hcd
bus = record {
  pio = λ _. some 0x030000;
  space = some 3000;
  program_write_buffer_water_mark = λ _ s. record s { write_wait = true };
}

idle-IsTx : IsTx bus idle
idle-IsTx = (
  λ _. record { credits_lt = omega arith; rpt_lt = omega arith; int_lt = omega arith },
  λ _ e. ground arith,
  omega arith,
  (refl, (refl, (refl, tt))),
)

idle-Fit : Fit idle.htc idle.tx_queue
unfolding send_padded_len to_len sum_frags
idle-Fit = (omega arith, (omega arith, (omega arith, tt)))

drop_tx_data_packets_lem_example :
    drop_tx_data_packets idle
    ≡ ran (record idle { tx_queue = request 1 ∷ []; completed = request 2 ∷ request 3 ∷ [] })
drop_tx_data_packets_lem_example =
    drop_tx_data_packets_lem idle (omega arith) (refl, (refl, (refl, tt)))

tx_ready_lem_example :
    Returns
      (λ (ready, t').
        Accounted idle.htc t'.htc × (ready ≡ true → CanSend idle.htc t' idle.tx_queue))
      (tx_ready bus idle)
tx_ready_lem_example = tx_ready_lem bus idle idle-IsTx idle-Fit

request-CanSubmit : CanSubmit idle.htc (request 2)
unfolding send_padded_len
request-CanSubmit = (omega arith, refl, omega arith, omega arith)

submit_lem_example :
    Returns
      (λ t'.
        IsTx bus t'
        × Fit t'.htc t'.tx_queue
        × ((b : Netbuf) × IsPrepared idle.htc (request 2) b
            × (t'.tx_queue ≡ idle.tx_queue ++ (b ∷ []))))
      (submit_tx_request idle (request 2))
    × Returns
        (λ t'.
          IsTx bus t'
          × Fit t'.htc t'.tx_queue
          × ((b : Netbuf) × IsPrepared idle.htc (request 2) b × (t'.tx_queue ≡ b ∷ idle.tx_queue)))
        (submit_ep0_tx_request idle (request 2))
submit_lem_example =
    submit_lem bus idle (request 2) idle-IsTx idle-Fit (omega arith) request-CanSubmit

-- The counter brings the credits, and the register shows the room.
answers_yes :
    Returns (λ (ready, t'). (ready ≡ true) × (t'.credit_deadlock ≡ false)) (tx_ready bus idle)
unfolding tx_ready acquire_credits check_room send_padded_len to_len sum_frags
    get_credit_counter_update read_credit_counter count_credits get_endpoint
answers_yes = (refl, refl)

ready_sends_example :
    Returns
      (λ (ready, t').
        ready ≡ true
        → Returns (Sent t'.htc (get_endpoint 2)) (send_packet t'.htc (λ _. 0) (request 2)))
      (tx_ready bus idle)
ready_sends_example =
    ready_sends bus idle (λ _. 0) (request 2) (request 1 ∷ request 3 ∷ []) idle-IsTx idle-Fit refl
      refl
