-- ===== src/Wmi.antt =====
-- common_src/wmi/wmi.c: the headers of data frames, between those of Ethernet and of the target.
-- A frame is a buffer (Netbuf/Buffer) over byte memory.
pub mod Build
pub mod Commands
pub mod Control
pub mod Encap
pub mod Events
pub mod Headers
mod Tests
use atheros_wifi.Prelude.{
  ℕ, ◌+◌, ◌*◌, ◌/◌, ◌%◌, ◌^◌, bit_and, bit_or, Bool, true, false, List, [], ◌∷◌, ◌++◌, ltb, ◌==◌,
  if◌then◌else◌, get_or, Outcome, ran, ◌>>=◌, sub32, Mem, load, store,
}
use atheros_wifi.Netbuf.Buffer.{Netbuf, to_len, headroom, push, pull}

abbrev pub a_no_memory : ℕ
a_no_memory = 2

-- The sizes of ATH_MAC_HDR, ATH_LLC_SNAP_HDR, WMI_DATA_HDR and of the meta data (WMI_MAX_TX_META_SZ).
abbrev pub mac_hdr_size : ℕ
mac_hdr_size = 14

abbrev pub llc_hdr_size : ℕ
llc_hdr_size = 8

abbrev pub data_hdr_size : ℕ
data_hdr_size = 6

abbrev pub meta_size : ℕ
meta_size = 12

-- The two bytes at an address, as a number of the network's byte order.
abbrev pub be16 : Mem → ℕ → ℕ
be16 m a = m a * 2 ^ 8 + m (a + 1)

-- A_CPU2BE16 of a length, as it lies in memory.
abbrev pub be16_bytes : ℕ → List ℕ
be16_bytes n = n / 2 ^ 8 % 2 ^ 8 ∷ n % 2 ^ 8 ∷ []

-- A QOSAL_UINT32 in the bytes of a message, on a little-endian host.
abbrev pub le32 : ℕ → List ℕ
le32 n = n % 2 ^ 8 ∷ n / 2 ^ 8 % 2 ^ 8 ∷ n / 2 ^ 16 % 2 ^ 8 ∷ n / 2 ^ 24 % 2 ^ 8 ∷ []

-- DSAP, SSAP, control and the organisation of a SNAP header.
abbrev pub snap : List ℕ
snap = 0xAA ∷ 0xAA ∷ 3 ∷ 0 ∷ 0 ∷ 0 ∷ []

-- The two headers, from the front.
abbrev pub framed : Mem → Netbuf → (mac type_bytes : List ℕ) → (len : ℕ) → Mem
framed m b mac type_bytes len =
    store (store m b.start (mac ++ be16_bytes len)) (b.start + mac_hdr_size) (snap ++ type_bytes)

-- `wmi_dix_2_dot3`
pub dix_2_dot3 : Mem → Netbuf → Outcome (ℕ × Mem × Netbuf)
dix_2_dot3 m b =
    let mac = load m b.start 12 in
    let type_bytes = load m (b.start + 12) 2 in
    let len = sub32 (to_len b) mac_hdr_size + llc_hdr_size in
    if ltb (headroom b) (llc_hdr_size + data_hdr_size)
    then ran (a_no_memory, m, b)
    else (if ltb (be16 m (b.start + 12)) 0x600
        then ran (0, m, b)
        else (do b' ← push b llc_hdr_size; ran (0, framed m b' mac type_bytes len, b')))

-- `wmi_dot3_2_dix`
pub dot3_2_dix : Mem → Netbuf → Outcome (Mem × Netbuf)
dot3_2_dix m b = do
  let mac = load m b.start 12
  let type_bytes = load m (b.start + mac_hdr_size + 6) 2
  b' ← pull b llc_hdr_size
  ran (store m b'.start (mac ++ type_bytes), b')

-- `wmi_meta_add`: the first bytes of the meta data at `p_tx_meta`, whose rest stays as it was.
pub meta_add : Mem → Netbuf → (version p_tx_meta : ℕ) → Outcome (Mem × Netbuf)
meta_add m b version p_tx_meta =
    let size = if version == 3 then 11 else 1 in
    if (if version == 3 then true else version == 5)
    then (do b' ← push b meta_size; ran (store m b'.start (load m p_tx_meta size), b'))
    else ran (m, b)

-- The fields of WMI_DATA_HDR that the macros WMI_DATA_HDR_SET_... set: three of `info`, one of
-- `info2`.
abbrev pub set_msg_type : ℕ → ℕ → ℕ
set_msg_type info t = bit_or (bit_and info 0xFC) t % 2 ^ 8

abbrev pub set_data_type : ℕ → ℕ → ℕ
set_data_type info p = bit_or (bit_and info 0x3F) (p * 2 ^ 6) % 2 ^ 8

abbrev pub set_more : ℕ → ℕ
set_more info = bit_or info 0x20

unfoldable pub set_up : ℕ → ℕ → ℕ
set_up info p = bit_or (bit_and info 0xE3) (p * 2 ^ 2) % 2 ^ 8

abbrev pub set_meta : ℕ → ℕ → ℕ
set_meta info2 v = bit_or (bit_and info2 0x1FFF) (v * 2 ^ 13) % 2 ^ 16

abbrev pub get_meta : Mem → ℕ → ℕ
get_meta m a = (m (a + 2) + 2 ^ 8 * m (a + 3)) / 2 ^ 13 % 2 ^ 3

-- The header's bytes: rssi, `info`, `info2` and `info3`.
unfoldable pub data_hdr : (msg_type : ℕ) (more : Bool) (data_type version : ℕ) → List ℕ
data_hdr msg_type more data_type version =
    let info = set_data_type (set_msg_type 0 msg_type) data_type in
    let info2 = set_meta 0 version in
    0 ∷ (if more then set_more info else info) ∷ info2 % 2 ^ 8 ∷ info2 / 2 ^ 8 ∷ 0 ∷ 0 ∷ []

-- `wmi_data_hdr_add`
pub data_hdr_add :
    Mem
    → Netbuf
    → (msg_type : ℕ) (more : Bool) (data_type version p_tx_meta : ℕ) → Outcome (Mem × Netbuf)
data_hdr_add m b msg_type more data_type version p_tx_meta = do
  (m', b') ← meta_add m b version p_tx_meta
  b'' ← push b' data_hdr_size
  ran (store m' b''.start (data_hdr msg_type more data_type version), b'')

-- `wmi_data_hdr_remove`
unfoldable pub data_hdr_remove : Netbuf → Outcome Netbuf
data_hdr_remove b = pull b data_hdr_size

-- `up_to_ac`: best effort, background, video, voice.
abbrev pub up_to_ac : List ℕ
up_to_ac = 0 ∷ 1 ∷ 1 ∷ 0 ∷ 2 ∷ 2 ∷ 3 ∷ 3 ∷ []

-- `wmi_determine_userPriority` of the IP header at `pkt`: the precedence of its type of service.
pub determine_user_priority : Mem → (pkt layer2_pri : ℕ) → ℕ
determine_user_priority m pkt layer2_pri =
    let ip_pri = m (pkt + 1) / 2 ^ 5 % 2 ^ 3 in
    if ltb ip_pri (layer2_pri % 2 ^ 3) then layer2_pri % 2 ^ 3 else ip_pri

-- `wmi_implicit_create_pstream`: the access category, with the priority in the header.
pub implicit_create_pstream : Mem → Netbuf → (layer2_pri : ℕ) (wmm_enabled : Bool) → ℕ × Mem
implicit_create_pstream m b layer2_pri wmm_enabled =
    let meta = if get_meta m b.start == 0 then 0 else meta_size in
    let llc = b.start + data_hdr_size + meta + mac_hdr_size in
    let priority =
      if wmm_enabled
      then (if be16 m (llc + 6) == 0x800
          then determine_user_priority m (llc + llc_hdr_size) layer2_pri
          else layer2_pri % 2 ^ 3)
      else 0 in
    (
      get_or up_to_ac (priority % 2 ^ 3) 0,
      store m (b.start + 1) (set_up (m (b.start + 1)) priority ∷ []),
    )
