-- ===== src/Packet.antt =====
-- common_src/api_interface/api_txrx.c: packets from the network stack, and WMI commands, on their
-- way to the queue of the driver.
pub mod Receive
pub mod Send
mod Tests
use atheros_wifi.Prelude.{
  ℕ, ◌+◌, ◌-◌, ◌^◌, Bool, true, false, ◌&&◌, ◌||◌, not, Option, none, some, ◌==◌, if◌then◌else◌,
  Outcome, ran, ◌>>=◌, Mem,
}
use atheros_wifi.Util.{Mapping, ac2endpoint_id}
use atheros_wifi.Netbuf.Buffer.{Netbuf}
use atheros_wifi.Transmit.{Tx, submit_tx_request}
use atheros_wifi.Wmi.{data_hdr_add, implicit_create_pstream}

abbrev pub a_error : ℕ
a_error = 2 ^ 32 - 1

-- ENDPOINT_UNUSED, -1 as its bit pattern.
abbrev pub endpoint_unused : ℕ
endpoint_unused = 2 ^ 32 - 1

-- The fields of A_DRIVER_CONTEXT, for one device (`conn` has one entry).
pub record Net : Type 0 where
  pub is_connected : Bool
  pub is_connect_pending : Bool
  pub wmi_ready : Bool
  pub wmi_enabled : Bool
  pub wmm_enabled : Bool
  pub mapping : Mapping
  pub mem : Mem
  pub tx : Tx

abbrev pub with_epid : Netbuf → ℕ → Netbuf
with_epid b eid = record b { trans = record b.trans { epid = eid } }

-- `Api_WmiTxStart`
unfoldable pub wmi_tx_start : Tx → Netbuf → ℕ → Outcome (ℕ × Tx)
wmi_tx_start t b eid = do t' ← submit_tx_request t (with_epid b eid); ran (0, t')

-- The end of `Api_DataTxStart`, from the choice of the endpoint on. The table has an entry for each
-- access category.
abbrev pub submit_to : Net → Netbuf → Option ℕ → Outcome (ℕ × Net)
submit_to n b none = ran (a_error, n)
submit_to n b (some eid) =
    if eid == 0 || eid == endpoint_unused
    then ran (a_error, n)
    else (do t ← submit_tx_request n.tx (with_epid b eid); ran (0, record n { tx = t }))

-- From the header on: DATA_MSGTYPE, no more data, an 802.3 frame, WMI_META_VERSION_5 with the meta
-- data at `ip_meta`.
abbrev pub add_headers : Net → Netbuf → (ip_meta : ℕ) → Outcome (ℕ × Net)
add_headers n b ip_meta = do
  (m, b') ← data_hdr_add n.mem b 0 false 0 5 ip_meta
  let (ac, m') = implicit_create_pstream m b' 0 n.wmm_enabled
  submit_to (record n { mem = m' }) b' (ac2endpoint_id n.mapping ac)

-- `Api_DataTxStart`. Other tasks may run at two places: `connects` says whether the connection is
-- there when the wait for it is over, and `access` whether `Api_DriverAccessCheck` gives A_OK.
pub data_tx_start : (connects access : Bool) → Net → Netbuf → (ip_meta : ℕ) → Outcome (ℕ × Net)
data_tx_start connects access n b ip_meta =
    let is_connected = n.is_connected || (n.is_connect_pending && connects) in
    let n' = record n { is_connected = is_connected } in
    if is_connected && (access && (n.wmi_ready && n.wmi_enabled))
    then add_headers n' b ip_meta
    else ran (a_error, n')
