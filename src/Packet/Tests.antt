-- ===== src/Packet/Tests.antt =====
-- Runs on one packet, and the theorems at it.
use atheros_wifi.Prelude.{
  ℕ, ◌≡◌, refl, true, false, some, [], ◌∷◌, arith, Outcome, ran, halted, Returns, Mem,
}
use atheros_wifi.Util.{ac2endpoint_id}
use atheros_wifi.Netbuf.Buffer.{Netbuf, zeroed, to_len, sum_frags, pull}
use atheros_wifi.Netbuf.Buffer.Room.{IsBuffer}
use atheros_wifi.Htc.{Endpoint}
use atheros_wifi.Transmit.{Tx}
use atheros_wifi.Packet.{a_error, Net, data_tx_start}
use atheros_wifi.Packet.Send.{IsSent, data_tx_start_lem}
use atheros_wifi.Packet.Receive.{Rx, average, data_rx, rx_complete}
use atheros_wifi.Packet.Receive.Deliver.{IsReceived, rx_complete_lem}
use atheros_wifi.Wmi.{data_hdr_remove}

abbrev twenty : Netbuf
twenty = record zeroed { head = 4096; start = 4160; tail = 4180; finish = 4260 }

twenty-IsBuffer : IsBuffer twenty
twenty-IsBuffer = omega arith

abbrev zeros : Mem
zeros _ = 0

abbrev endpoint : Endpoint
endpoint = record {
  max_msg_length = 4144;
  service_id = 0x101;
  int_credits = 0;
  int_credit_counter = 0;
  rpt_credit_counter = 0;
  ep_idx = 2;
  credits = 4;
  max_credits = 4;
  seq_no = 0;
}

abbrev idle : Tx
idle = record {
  fatal_error = false;
  dma_in_prog = false;
  dma_complete = false;
  spi = record { write_buffer_space = 0; write_wait = false };
  credit_deadlock = false;
  credit_deadlock_counter = 0;
  rx_buffer_status = true;
  tx_queue = [];
  completed = [];
  htc = record {
    credit_count = 6;
    credit_size = 1664;
    htc_credit_init = 1;
    htc_start = true;
    cpu_interrupt_cause = 0;
    look_ahead = 0;
    block_mask = 31;
    ep = λ _. endpoint;
  };
}

abbrev net : Net
net = record {
  is_connected = true;
  is_connect_pending = false;
  wmi_ready = true;
  wmi_enabled = true;
  wmm_enabled = false;
  mapping = record { ac2ep_mapping = 2 ∷ 2 ∷ 2 ∷ 2 ∷ []; ep2ac_mapping = [] };
  mem = zeros;
  tx = idle;
}

best_effort : ac2endpoint_id net.mapping 0 ≡ some 2
unfolding ac2endpoint_id
best_effort = refl

data_tx_start_lem_example : Returns (IsSent net twenty 0 2) (data_tx_start false true net twenty 0)
data_tx_start_lem_example =
    data_tx_start_lem false true net twenty 0 2 refl refl twenty-IsBuffer (omega arith) best_effort
      refl

-- Without a connection, the wait for one decides.
not_connected :
    data_tx_start false true
      (record net { is_connected = false; is_connect_pending = true })
      twenty
      0
    ≡ ran (a_error, record net { is_connected = false; is_connect_pending = true })
unfolding data_tx_start
not_connected = refl

abbrev rx : Rx ℕ
rx = record {
  wmi_enabled = true;
  promiscuous_mode = false;
  is_ap = λ _. false;
  rssi = 200;
  wmi = record { endpoint_id = 1; device_id = 0; cmd_len_err = 0; cmd_id_err = 0 };
  mem = zeros;
  host = 0;
  delivered = [];
  freed = [];
}

abbrev handler : (id device_id datap len : ℕ) → Mem → ℕ → Outcome (ℕ × ℕ)
handler id device_id datap len m c = ran (0, c)

rx_complete_lem_example : IsReceived rx twenty (rx_complete handler rx twenty)
rx_complete_lem_example =
    rx_complete_lem handler rx twenty twenty-IsBuffer refl (omega arith) refl refl refl refl

-- Signals of -56 and -40 give -54, and one of -40 alone stays.
averages : (average 200 216 ≡ 202) × (average 0 216 ≡ 216)
unfolding average
averages = (refl, refl)

-- In promiscuous mode a packet is delivered whatever its header says.
promiscuous :
    rx_complete handler (record rx { promiscuous_mode = true; mem = λ _. 255 }) twenty
    ≡ ran (record rx {
      promiscuous_mode = true;
      mem = λ _. 255;
      delivered = record twenty { start = 4166 } ∷ [];
    })
unfolding rx_complete data_hdr_remove pull
promiscuous = refl

-- A packet of an access point may be short: it halts the driver.
short_of_ap : data_rx (record rx { is_ap = λ _. true }) (record twenty { tail = 4164 }) ≡ halted
unfolding data_rx data_hdr_remove pull to_len sum_frags
short_of_ap = refl
