-- ===== src/Wmi/Tests.antt =====
-- Runs on one frame, one command and one event, and the theorems at them.
use atheros_wifi.Prelude.{
  leb, ◌&&◌, if◌then◌else◌, ℕ, ◌+◌, ◌%◌, ◌^◌, ◌≡◌, refl, true, false, not, some, none, [], ◌∷◌,
  ◌++◌, arith, Outcome, ran, halted, ◌>>=◌, Returns, Mem, load, store,
}
use atheros_wifi.Netbuf.Buffer.{alloc, Netbuf, zeroed, to_len, sum_frags, pull, push}
use atheros_wifi.Netbuf.Buffer.Room.{IsBuffer, size_of, Keeps}
use atheros_wifi.Netbuf.Buffer.Bytes.{content}
use atheros_wifi.Htc.{Endpoint}
use atheros_wifi.Htc.Frame.{get16}
use atheros_wifi.Transmit.{Tx}
use atheros_wifi.Packet.{a_error}
use atheros_wifi.Wmi.{
  le32, dix_2_dot3, dot3_2_dix, meta_add, data_hdr_remove, determine_user_priority,
}
use atheros_wifi.Wmi.Encap.{dot3_2_dix-dix_2_dot3}
use atheros_wifi.Wmi.Control.{
  Wmi, a_einval, cmd_send, cmd_start, test_ev_length, length_array, is_in, quiet_events,
  status_events, unknown, keeps_buffer, control_rx_xtnd, dispatch, control_rx,
}
use atheros_wifi.Wmi.Build.{
  bssfilter_cmd, socket_cmd, set_appie_cmd, p2p_set_oppps, p2p_set_noa, storerecall_recall_cmd,
}
use atheros_wifi.Wmi.Build.Queued.{socket_cmd_lem}
use atheros_wifi.Wmi.Commands.{IsCommanded, cmd_start_lem}
use atheros_wifi.Wmi.Events.{is_refused, own_events, handled, HandlerHalts}
use atheros_wifi.Wmi.Events.Ends.{HaltsBy, control_rx-halted, control_rx-plain}

-- Twenty bytes, with 64 in front of them.
abbrev twenty : Netbuf
twenty = record zeroed { head = 4096; start = 4160; tail = 4180; finish = 4260 }

twenty-IsBuffer : IsBuffer twenty
twenty-IsBuffer = omega arith

-- Bytes of 8, so that the type of the frame is 0x808.
abbrev eights : Mem
eights _ = 8

dot3_2_dix-dix_2_dot3_example :
    Returns
      (λ (m', c).
        Keeps twenty c
        × (c.start ≡ 4160)
        × (c.tail ≡ 4180)
        × (content m' c ≡ content eights twenty))
      (dix_2_dot3 eights twenty >>= λ (s, m', c). dot3_2_dix m' c)
dot3_2_dix-dix_2_dot3_example =
    dot3_2_dix-dix_2_dot3 eights twenty twenty-IsBuffer refl (omega arith) (omega arith)
      (omega arith)

-- Meta data of version 3 has eleven bytes, and other versions but 5 have none.
metas :
    Returns
      (λ (m', c). load m' c.start 12 ≡ load eights 0 11 ++ (5 ∷ []))
      (meta_add (store (λ _. 5) 0 (load eights 0 11)) twenty 3 0)
    × (meta_add eights twenty 4 0 ≡ ran (eights, twenty))
unfolding meta_add push store
metas = (refl, refl)

header_removed : data_hdr_remove twenty ≡ ran (record twenty { start = 4166 })
unfolding data_hdr_remove pull
header_removed = refl

-- The precedence 5 of a type of service, and a higher one of the second layer.
priorities :
    (determine_user_priority (λ _. 0xA0) 0 3 ≡ 5) × (determine_user_priority (λ _. 0xA0) 0 6 ≡ 6)
unfolding determine_user_priority
priorities = (refl, refl)

abbrev endpoint : Endpoint
endpoint = record {
  max_msg_length = 4144;
  service_id = 0x100;
  int_credits = 0;
  int_credit_counter = 0;
  rpt_credit_counter = 0;
  ep_idx = 1;
  credits = 1;
  max_credits = 1;
  seq_no = 0;
}

abbrev idle : Tx
idle = record {
  fatal_error = false;
  dma_in_prog = false;
  dma_complete = false;
  spi = record { write_buffer_space = 0; write_wait = false };
  credit_deadlock = false;
  credit_deadlock_counter = 0;
  rx_buffer_status = true;
  tx_queue = [];
  completed = [];
  htc = record {
    credit_count = 6;
    credit_size = 1664;
    htc_credit_init = 1;
    htc_start = true;
    cpu_interrupt_cause = 0;
    look_ahead = 0;
    block_mask = 31;
    ep = λ _. endpoint;
  };
}

abbrev wmi : Wmi
wmi = record { endpoint_id = 1; device_id = 0; cmd_len_err = 0; cmd_id_err = 0 }

cmd_start_lem_example :
    Returns
      (λ (s, m', t'). (s ≡ 0) × IsCommanded wmi idle 0x12 (load eights 64 5) m' t')
      (cmd_start (some 8) (some 4096) wmi eights idle 64 0x12 5)
cmd_start_lem_example = cmd_start_lem wmi eights idle 8 4096 64 0x12 5 (omega arith)

-- A flag for synchronisation past the last is refused, and the buffer freed.
flag_refused : cmd_send wmi eights idle twenty 0x12 4 ≡ ran (a_einval, true, eights, idle)
unfolding cmd_send
flag_refused = refl

no_memory : cmd_start (some 8) none wmi eights idle 64 0x12 5 ≡ ran (2, eights, idle)
unfolding cmd_start alloc
no_memory = refl

-- The host's handlers count the events.
abbrev counting : (id device_id datap len : ℕ) → Mem → ℕ → Outcome (ℕ × ℕ)
counting id device_id datap len m c = ran (0, c + 1)

-- WMI_CONNECT_EVENTID, with fourteen bytes.
abbrev connect_event : Mem
connect_event = store eights 4160 (0x02 ∷ 0x10 ∷ 0 ∷ 0 ∷ [])

abbrev long : Netbuf
long = record twenty { tail = 4190 }

long-IsBuffer : IsBuffer long
long-IsBuffer = omega arith

control_rx-halted_example :
    HaltsBy
      (leb 6 (size_of long) && is_refused connect_event 4160 24)
      (HandlerHalts counting 0
        (handled connect_event (get16 connect_event 4160) 4166)
        (get16 connect_event 4162 % 2 ^ 4))
      (control_rx counting wmi connect_event 0 long)
control_rx-halted_example = control_rx-halted counting wmi connect_event 0 long long-IsBuffer refl

not_refused : is_refused connect_event 4160 24 ≡ false
unfolding test_ev_length store
not_refused = refl

not_own : is_in (get16 connect_event 4160) own_events ≡ false
unfolding store
not_own = refl

no_status : is_in (get16 connect_event 4160) status_events ≡ false
unfolding store
no_status = refl

control_rx-plain_example : control_rx counting wmi connect_event 0 long ≡ (
    if is_in (get16 connect_event 4160) quiet_events
    then (do
      (_, c') ←
          counting
            (get16 connect_event 4160)
            (get16 connect_event 4162 % 2 ^ 4)
            4166
            24
            connect_event
            0
      ran (
        not (keeps_buffer (get16 connect_event 4160)),
        record { status = 0; wmi = wmi; mem = connect_event; host = c' },
      ))
    else ran (not (keeps_buffer (get16 connect_event 4160)), unknown counting wmi connect_event 0))
control_rx-plain_example =
    control_rx-plain counting wmi connect_event 0 long long-IsBuffer refl (omega arith) not_refused
      not_own no_status

-- A handler that does not return, as that of WMI_ADDBA_REQ_EVENTID where the tid is not below 8.
abbrev failing : (id device_id datap len : ℕ) → Mem → ℕ → Outcome (ℕ × ℕ)
failing id device_id datap len m c = halted

handler_halts : control_rx failing wmi connect_event 0 long ≡ halted
unfolding control_rx dispatch test_ev_length pull to_len sum_frags store
handler_halts = refl

-- The data of a profile is an extension that is known.
profile :
    Returns
      (λ h. (h.status ≡ 0) × (h.host ≡ 1))
      (control_rx_xtnd counting wmi (store eights 4160 (0x0C ∷ 0x30 ∷ 0 ∷ 0 ∷ [])) 0 0 twenty)
unfolding control_rx_xtnd pull to_len sum_frags store
profile = (refl, refl)

-- The length passes, and the handler is called.
connected :
    Returns
      (λ (freed, h). (freed ≡ true) × (h.status ≡ 0) × (h.host ≡ 1))
      (control_rx counting wmi connect_event 0 long)
unfolding control_rx dispatch test_ev_length pull to_len sum_frags store
connected = (refl, refl, refl)

-- With sixteen bytes of payload, a found network passes the test of its length; with twelve, which
-- is the size of the header that the target sends, it does not.
found_network :
    (test_ev_length length_array 0x1004 16 ≡ true) × (test_ev_length length_array 0x1004 12 ≡ false)
unfolding test_ev_length
found_network = (refl, refl)

-- An extension that is not known is counted.
extension :
    Returns
      (λ h. (h.status ≡ a_error) × (h.wmi.cmd_id_err ≡ 1))
      (control_rx_xtnd counting wmi eights 0 0 twenty)
unfolding control_rx_xtnd pull to_len sum_frags
extension = (refl, refl)

socket_cmd_lem_example :
    Returns
      (λ (s, m', t').
        (s ≡ 0) × IsCommanded wmi idle 0xF08D (le32 3 ++ (le32 4 ++ load eights 72 4)) m' t')
      (socket_cmd (some 8) (some 4096) wmi eights idle 3 64 12)
socket_cmd_lem_example =
    socket_cmd_lem wmi eights idle 8 4096 3 64 12 (omega arith) (omega arith) (omega arith)
      (omega arith)

-- Without memory, nothing is sent.
nothing_sent :
    (bssfilter_cmd none none wmi eights idle 200 1 0
      ≡ ran (2, store (store eights 200 (1 ∷ [])) 204 (le32 0), idle))
    × (set_appie_cmd none none wmi eights idle 1 2 64 ≡ ran (2, eights, idle))
    × (p2p_set_oppps none none wmi eights idle 1 2 ≡ ran (2, eights, idle))
    × (p2p_set_noa none none wmi eights idle 64 ≡ ran (2, eights, idle))
    × (storerecall_recall_cmd none none wmi eights idle 10 64 ≡ ran (2, eights, idle))
unfolding bssfilter_cmd set_appie_cmd p2p_set_oppps p2p_set_noa storerecall_recall_cmd cmd_start
    alloc
nothing_sent = (refl, refl, refl, refl, refl)
