-- ===== src/Wmi/Control.antt =====
-- common_src/wmi/wmi.c: commands to the target, and events from it.
use atheros_wifi.Prelude.{
  ℕ, ◌+◌, ◌-◌, ◌*◌, ◌/◌, ◌%◌, ◌^◌, Bool, true, false, ◌||◌, not, Option, none, some, List, [], ◌∷◌,
  ◌++◌, ltb, leb, ◌==◌, if◌then◌else◌, Outcome, ran, ◌>>=◌, ◌>>◌, assert, Mem, load, store,
}
use atheros_wifi.Netbuf.Buffer.{Netbuf, alloc, to_len, push, put, pull}
use atheros_wifi.Htc.Frame.{get16, get32}
use atheros_wifi.Transmit.{Tx}
use atheros_wifi.Packet.{a_error, wmi_tx_start}
use atheros_wifi.Wmi.{a_no_memory}

abbrev pub a_einval : ℕ
a_einval = 14

abbrev pub cmd_hdr_size : ℕ
cmd_hdr_size = 6

-- `struct wmi_t`: its endpoint and device, and two of its counters of errors.
pub record Wmi : Type 0 where
  pub endpoint_id : ℕ
  pub device_id : ℕ
  pub cmd_len_err : ℕ
  pub cmd_id_err : ℕ

-- The first four bytes of a command: its number, and the device in the low bits of what was there.
abbrev pub cmd_hdr : Mem → ℕ → (cmd_id device_id : ℕ) → List ℕ
cmd_hdr m a cmd_id device_id =
    let info1 = get16 m (a + 2) / 2 ^ 4 * 2 ^ 4 + device_id % 2 ^ 4 in
    cmd_id % 2 ^ 8 ∷ cmd_id / 2 ^ 8 % 2 ^ 8 ∷ info1 % 2 ^ 8 ∷ info1 / 2 ^ 8 ∷ []

-- `wmi_cmd_send`, with WLAN_CONFIG_ENABLE_WMI_SYNC off: the flag is only tested. The second value
-- says whether the buffer is freed; what `Api_WmiTxStart` returns is not looked at.
unfoldable pub cmd_send :
    Wmi → Mem → Tx → Netbuf → (cmd_id sync_flag : ℕ) → Outcome (ℕ × Bool × Mem × Tx)
cmd_send w m t b cmd_id sync_flag = if leb 4 sync_flag then ran (a_einval, true, m, t) else (do
  b' ← push b cmd_hdr_size
  let m' = store m b'.start (cmd_hdr m b'.start cmd_id w.device_id)
  (_, t') ← wmi_tx_start t b' w.endpoint_id
  ran (0, false, m', t'))

-- `wmi_cmd_start` of the `size` bytes at `input`: A_MALLOC's two results come first.
unfoldable pub cmd_start :
    (obj memory : Option ℕ) → Wmi → Mem → Tx → (input cmd_id size : ℕ) → Outcome (ℕ × Mem × Tx)
cmd_start obj memory w m t input cmd_id size = elim (alloc obj memory size) [
  | none ↦ ran (a_no_memory, m, t)
  | some b ↦ (do
    b' ← if size == 0 then ran b else put b size
    let m' = if size == 0 then m else store m b'.start (load m input size)
    (status, _, m'', t') ← cmd_send w m' t b' cmd_id 0
    ran (status, m'', t'))
]

-- `length_array` of `wmi_test_ev_length`: the events with a least length.
abbrev pub length_array : List (ℕ × ℕ)
length_array =
    (0x1004, 16)
    ∷ (0x1002, 20)
    ∷ (0x000E, 4)
    ∷ (0x1001, 15)
    ∷ (0x1003, 11)
    ∷ (0x1004, 16)
    ∷ (0x1006, 4)
    ∷ (0x102A, 32)
    ∷ (0x1009, 2)
    ∷ (0x101B, 7)
    ∷ []

-- The search for the event; whether its length passes.
unfoldable pub test_ev_length : List (ℕ × ℕ) → (id len : ℕ) → Bool
test_ev_length [] id len = true
test_ev_length ((i, n) ∷ rest) id len =
    let later = test_ev_length rest id len in if id == i then leb n len else later

abbrev pub is_in : ℕ → List ℕ → Bool
is_in id [] = false
is_in id (i ∷ is) = id == i || is_in id is

-- The events whose handlers' status is not looked at, in the order of the switch; those with a
-- status, the last three of ENABLE_P2P_MODE and MANUFACTURING_SUPPORT among them; and those of
-- WMI_EXTENSION_EVENTID, with ENABLE_KF_PERFORMANCE.
abbrev pub quiet_events : List ℕ
quiet_events =
    0x000E ∷ 0xF001 ∷ 0x903D ∷ 0x9040 ∷ 0x903E ∷ 0x1001 ∷ 0x1002 ∷ 0x1003 ∷ 0x1006 ∷ 0x100A ∷ 0x100B
    ∷ 0x102A ∷ 0x9003 ∷ 0x9033 ∷ 0x9031 ∷ 0x9032 ∷ 0x9038 ∷ 0x9039 ∷ 0x903A ∷ 0x903B ∷ 0x903C
    ∷ 0x900F ∷ 0x1020 ∷ 0x1022 ∷ 0x1009 ∷ 0x900A ∷ 0x9041 ∷ []

abbrev pub status_events : List ℕ
status_events =
    0x9016 ∷ 0x9030 ∷ 0x1036 ∷ 0x901A ∷ 0x901B ∷ 0x1041 ∷ 0x1042 ∷ 0x103E ∷ 0x103F ∷ 0x1040 ∷ 0x1046
    ∷ 0x1016 ∷ []

abbrev pub extended_events : List ℕ
extended_events = 0x3008 ∷ 0x3005 ∷ 0x300C ∷ 0x300D ∷ 0x3007 ∷ []

-- The two events whose handlers keep the buffer: WMI_WPS_PROFILE_EVENTID and
-- WMI_SOCKET_RESPONSE_EVENTID.
abbrev pub keeps_buffer : ℕ → Bool
keeps_buffer id = id == 0x900F || id == 0x9016

-- WMI_BSS_INFO_HDR, made of the shorter WMI_BSS_INFO_HDR2 at `p`: rssi is snr - 95, and ieMask has
-- four bytes.
abbrev pub bss_info_hdr : Mem → ℕ → List ℕ
bss_info_hdr m p =
    let rssi = (m (p + 3) + 2 ^ 16 - 95) % 2 ^ 16 in
    load m p 4
    ++ (rssi % 2 ^ 8 ∷ rssi / 2 ^ 8 ∷ load m (p + 4) 6)
    ++ (load m (p + 10) 2 ++ (0 ∷ 0 ∷ []))

-- What the code does with an event: the status, the counters, memory and the state of the handlers.
pub record Heard (C : Type 0) : Type 0 where
  pub status : ℕ
  pub wmi : Wmi
  pub mem : Mem
  pub host : C

-- `handler` stands for the functions of api_wmi_rx.c and those that they call. An assertion in
-- them, as those of rcv_aggr.c on the tid, halts the driver.
module _ {C : Type 0} (handler : (id device_id datap len : ℕ) → Mem → C → Outcome (ℕ × C)) where
  -- The status of the handler is not looked at.
  abbrev pub quiet : Wmi → Mem → C → (id device_id datap len : ℕ) → Outcome (Heard C)
  quiet w m c id device_id datap len = do
    (_, c') ← handler id device_id datap len m c
    ran (record { status = 0; wmi = w; mem = m; host = c' })

  abbrev pub with_status : Wmi → Mem → C → (id device_id datap len : ℕ) → Outcome (Heard C)
  with_status w m c id device_id datap len = do
    (status, c') ← handler id device_id datap len m c
    ran (record { status = status; wmi = w; mem = m; host = c' })

  abbrev pub unknown : Wmi → Mem → C → Heard C
  unknown w m c = record {
    status = a_error;
    wmi = record w { cmd_id_err = w.cmd_id_err + 1 };
    mem = m;
    host = c;
  }

  -- `wmi_control_rx_xtnd`
  unfoldable pub control_rx_xtnd : Wmi → Mem → C → (device_id : ℕ) → Netbuf → Outcome (Heard C)
  control_rx_xtnd w m c device_id b =
      let id = get32 m b.start % 2 ^ 16 in
      if ltb (to_len b) 4
      then ran (record {
        status = a_error;
        wmi = record w { cmd_len_err = w.cmd_len_err + 1 };
        mem = m;
        host = c;
      })
      else (do
        b' ← pull b 4
        if is_in id extended_events
            then quiet w m c id device_id b'.start (to_len b')
            else ran (unknown w m c))

  -- The event of a found network: its header is made longer in place. A strong signal is not
  -- reported.
  abbrev pub bss_info : Wmi → Mem → C → (id device_id : ℕ) → Netbuf → Outcome (Heard C)
  bss_info w m c id device_id b = do
    b' ← push b 4
    let m' = store m b'.start (bss_info_hdr m b.start)
    if leb (m (b.start + 3)) 95
        then quiet w m' c id device_id b'.start (to_len b')
        else ran (record { status = 0; wmi = w; mem = m'; host = c })

  -- The switch of `wmi_control_rx`: WMI_BSSINFO_EVENTID, WMI_PEER_NODE_EVENTID, WMI_CMDERROR_EVENTID
  -- (`wmi_errorEvent_rx`) and WMI_EXTENSION_EVENTID are worked on here.
  unfoldable pub dispatch : Wmi → Mem → C → (id device_id : ℕ) → Netbuf → Outcome (Heard C)
  dispatch w m c id device_id b =
      let nothing : Heard C = record { status = 0; wmi = w; mem = m; host = c } in
      if id == 0x1004
      then bss_info w m c id device_id b
      else (if id == 0x101B
          then (if m b.start == 0 then quiet w m c id device_id b.start (to_len b) else ran nothing)
          else (if id == 0x1005
              then (do assert (not (m (b.start + 2) == 4)); ran nothing)
              else (if id == 0x1010
                  then control_rx_xtnd w m c device_id b
                  else (if is_in id quiet_events
                      then quiet w m c id device_id b.start (to_len b)
                      else (if is_in id status_events
                          then with_status w m c id device_id b.start (to_len b)
                          else ran (unknown w m c))))))

  -- `wmi_control_rx`: what is heard, and whether the buffer is freed.
  unfoldable pub control_rx : Wmi → Mem → C → Netbuf → Outcome (Bool × Heard C)
  control_rx w m c b =
      let id = get16 m b.start in
      let device_id = get16 m (b.start + 2) % 2 ^ 4 in
      if ltb (to_len b) cmd_hdr_size
      then ran (
        true,
        record {
          status = a_error;
          wmi = record w { cmd_len_err = w.cmd_len_err + 1 };
          mem = m;
          host = c;
        },
      )
      else (do
        b' ← pull b cmd_hdr_size
        assert (test_ev_length length_array id (to_len b'))
        heard ← dispatch w m c id device_id b'
        ran (not (keeps_buffer id), heard))
