-- ===== src/Htc/Tests.antt =====
-- A driver with six credits, and the theorems at it.
use atheros_wifi.Prelude.{
  ran, ℕ, zero, suc, ◌+◌, ◌%◌, ◌^◌, ◌≡◌, refl, ◌≢◌, Bool, true, ◌&&◌, none, some, List, [], ◌∷◌,
  arith, ltb, length, halted, Returns, Mem, load, store,
}
use atheros_wifi.Util.{get_endpoint}
use atheros_wifi.Netbuf.Buffer.{Netbuf, zero_trans, zeroed, put, pull, to_len, sum_frags}
use atheros_wifi.Netbuf.Buffer.Bytes.{content}
use atheros_wifi.Htc.{
  process_cpu_interrupt, Endpoint, Driver, report_credits, count_credits, distribute_credits,
}
use atheros_wifi.Htc.Account.{
  IsEndpoint, AreEndpoints, Accounted, AreBytes, NamesEndpoints, account, AreEndpoints→Accounted,
  count_credits-account, report_credits-count_credits,
}
use atheros_wifi.Htc.Frame.{
  process_tx_complete, rx_complete, prepare_recv_packet, Looks, ok, hdr, htc_hdr_length, no_looks,
  send_packet, process_record, process_trailer, process_recv_header,
}
use atheros_wifi.Htc.Trailer.{
  Record, encode, AreRecords, last_look, process_trailer_lem, process_trailer-encode,
}
use atheros_wifi.Htc.Header.{IsFrame, send_packet_lem, process_recv_header_lem}
use atheros_wifi.Htc.Connect.{connect_service, mark_endpoint, wait_target, start}

-- Five credits, two of them by the counter.
abbrev used : Endpoint
used = record {
  max_msg_length = 4144;
  service_id = 0x101;
  int_credits = 2;
  int_credit_counter = 250;
  rpt_credit_counter = 248;
  ep_idx = 2;
  credits = 5;
  max_credits = 8;
  seq_no = 255;
}

abbrev running : Driver
running = record {
  credit_count = 10;
  credit_size = 1664;
  htc_credit_init = 1;
  htc_start = true;
  cpu_interrupt_cause = 0;
  look_ahead = 0;
  block_mask = 31;
  ep = λ _. used;
}

used-IsEndpoint : IsEndpoint used
used-IsEndpoint = record { credits_lt = omega arith; rpt_lt = omega arith; int_lt = omega arith }

running-AreEndpoints : AreEndpoints running
running-AreEndpoints i = used-IsEndpoint

count_credits-account_example :
    IsEndpoint (count_credits used 4) × (account (count_credits used 4) ≡ account used)
count_credits-account_example = count_credits-account used 4 used-IsEndpoint (omega arith)

report_credits-count_credits_example :
    (report_credits (count_credits used ((248 + 9) % 2 ^ 8)) 9).credits
    ≡ (report_credits used 9).credits
report_credits-count_credits_example =
    report_credits-count_credits used 9 used-IsEndpoint (omega arith) (omega arith)

-- Three credits for endpoint 2, and a look-ahead.
abbrev report : List Record
report = (1, 2 ∷ 3 ∷ []) ∷ (2, 170 ∷ 1 ∷ 2 ∷ 3 ∷ 4 ∷ 85 ∷ []) ∷ []

abbrev fit : List ℕ → Bool
fit [] = true
fit (b ∷ bs) = ltb b 256 && fit bs

fit→AreBytes : (bs : List ℕ) → fit bs ≡ true → AreBytes bs
fit→AreBytes [] h i = omega arith
fit→AreBytes (b ∷ bs) h zero = ground arith
fit→AreBytes (b ∷ bs) h (suc i) = let rest : fit bs ≡ true = ground arith in fit→AreBytes bs rest i

names : NamesEndpoints 1 (2 ∷ 3 ∷ [])
names zero h = omega arith
names (suc i) h = absurd (omega arith)

report-AreRecords : AreRecords report
report-AreRecords = (
  (fit→AreBytes (2 ∷ 3 ∷ []) refl, λ _. names, λ e. absurd (omega arith), omega arith),
  (
    (
      fit→AreBytes (170 ∷ 1 ∷ 2 ∷ 3 ∷ 4 ∷ 85 ∷ []) refl,
      λ e. absurd (omega arith),
      λ _. omega arith,
      omega arith,
    ),
    tt,
  ),
)

abbrev no_look : Looks
no_look = record { next_look_ahead = 0; num_look_aheads = 0 }

report-length : length (encode report) ≡ 12
unfolding encode
report-length = refl

process_trailer_lem_example :
    Returns
      (λ (d', looks'). Accounted running d' × (looks' ≡ last_look report (some no_look)))
      (process_trailer 12 (encode report) (running, some no_look))
process_trailer_lem_example =
    process_trailer_lem 12 report running running (some no_look) (omega (arith, report-length))
      report-AreRecords (AreEndpoints→Accounted running running-AreEndpoints)

process_trailer-encode_example : (rs : List Record) × (encode rs ≡ 9 ∷ 1 ∷ 7 ∷ [])
unfolding process_trailer process_record
process_trailer-encode_example = process_trailer-encode 3 (9 ∷ 1 ∷ 7 ∷ []) (running, none) tt

abbrev packet : Netbuf
packet = record zeroed {
  head = 4032;
  start = 4096;
  tail = 4120;
  finish = 4200;
  trans = record zero_trans { credits = 3; epid = 2; lookahead = 983554 };
}

abbrev zeros : Mem
zeros _ = 0

send_packet_lem_example :
    Returns
      (λ (s, d', m').
        (s ≡ ok)
        × ((d'.ep 2).credits + 3 ≡ 5)
        × ((account (d'.ep 2) + 3) % 2 ^ 8 ≡ account used)
        × ((j : ℕ) → j ≢ 2 → d'.ep j ≡ used)
        × (load m' 4096 htc_hdr_length ≡ hdr 2 0 18 0 255))
      (send_packet running zeros packet)
unfolding get_endpoint
send_packet_lem_example =
    send_packet_lem running zeros packet running-AreEndpoints refl (omega arith) (omega arith)
      (omega arith) refl (omega arith) (omega arith)

abbrev frame : List ℕ
frame =
    2 ∷ 2 ∷ 15 ∷ 0 ∷ 12 ∷ 0 ∷ 7 ∷ 8 ∷ 9 ∷ 1 ∷ 2 ∷ 2 ∷ 3 ∷ 2 ∷ 6 ∷ 170 ∷ 1 ∷ 2 ∷ 3 ∷ 4 ∷ 85 ∷ 0 ∷ 0
    ∷ 0 ∷ []

packet-IsFrame : IsFrame (store zeros 4096 frame) packet (7 ∷ 8 ∷ 9 ∷ []) report (0 ∷ 0 ∷ 0 ∷ [])
unfolding store encode
packet-IsFrame = record {
  id = 2;
  flags = 2;
  control1 = 0;
  bytes = refl;
  marked = refl;
  least = omega arith;
  most = omega arith;
  look_ahead = refl;
}

process_recv_header_lem_example :
    Returns
      (λ (d', looks', b').
        Accounted running d'
        × (looks' ≡ last_look report (no_looks (some no_look)))
        × (content (store zeros 4096 frame) b' ≡ 7 ∷ 8 ∷ 9 ∷ []))
      (process_recv_header running (store zeros 4096 frame) packet (some no_look))
process_recv_header_lem_example =
    process_recv_header_lem running (store zeros 4096 frame) packet (some no_look) (7 ∷ 8 ∷ 9 ∷ [])
      report (0 ∷ 0 ∷ 0 ∷ []) packet-IsFrame (omega arith) refl (omega arith) (omega arith)
      running-AreEndpoints report-AreRecords

-- The first interrupt for the credits, from a target with six.
first_interrupt :
    Returns
      (λ d. (d.credit_count ≡ 6) × ((d.ep 1).credits ≡ 1) × ((d.ep 2).credits ≡ 4))
      (process_cpu_interrupt
        (λ _. some 0x06000000)
        (record running { htc_credit_init = 0; cpu_interrupt_cause = 1 }))
unfolding process_cpu_interrupt distribute_credits
first_interrupt = (refl, refl, refl)

-- A frame with 15 bytes of payload for endpoint 2, in blocks of 32 bytes.
announced :
    Returns
      (λ b. (b.tail ≡ 4152) × (b.trans.transfer_length ≡ 32) × (b.trans.epid ≡ 2))
      (prepare_recv_packet (record running { look_ahead = 983554 }) packet)
unfolding prepare_recv_packet put
announced = (refl, refl, refl)

sent : process_tx_complete packet ≡ ran (record packet { start = 4102 })
unfolding process_tx_complete pull
sent = refl

control_payload : rx_complete packet ≡ halted
unfolding rx_complete to_len sum_frags
control_payload = refl

ready :
    Returns
      (λ (s, d, resp). (s ≡ ok) × (d.credit_count ≡ 6) × ((d.ep 0).service_id ≡ 1))
      (wait_target none none running)
unfolding wait_target connect_service mark_endpoint get_endpoint
ready = (refl, refl, refl)

started : (start none running).1 ≡ ok
unfolding start
started = refl
