-- ===== src/Packet/Receive.antt =====
-- common_src/api_interface/api_txrx.c: what becomes of a packet from the target, with
-- ENABLE_STACK_OFFLOAD and without a hook of ath_custom_init.
pub mod Deliver
use atheros_wifi.Prelude.{
  ℕ, ◌+◌, ◌*◌, ◌/◌, ◌%◌, ◌^◌, Bool, true, false, ◌&&◌, ◌||◌, not, List, [], ◌∷◌, ◌++◌, ltb, ◌==◌,
  if◌then◌else◌, Outcome, ran, ◌>>=◌, ◌>>◌, assert, Mem,
}
use atheros_wifi.Netbuf.Buffer.{Netbuf, to_len}
use atheros_wifi.Htc.Frame.{get16}
use atheros_wifi.Wmi.{data_hdr_size, get_meta, data_hdr_remove}
use atheros_wifi.Wmi.Control.{Wmi, control_rx}

abbrev pub max_rx_message_size : ℕ
max_rx_message_size = 1664

-- The fields of A_DRIVER_CONTEXT: `is_ap` says for which index `conn` reads AP_NETWORK, `rssi` is a
-- QOSAL_INT8 as its bit pattern, and `host` the state of the handlers of events. `delivered` has
-- the buffers that went to the network stack, `freed` those that were freed.
pub record Rx (C : Type 0) : Type 0 where
  pub wmi_enabled : Bool
  pub promiscuous_mode : Bool
  pub is_ap : ℕ → Bool
  pub rssi : ℕ
  pub wmi : Wmi
  pub mem : Mem
  pub host : C
  pub delivered : List Netbuf
  pub freed : List Netbuf

-- A QOSAL_INT8, moved up by 128.
abbrev pub raised : ℕ → ℕ
raised v = (v + 128) % 2 ^ 8

-- The average of the signal: seven parts of the old one, and an eighth of the new. Both are moved
-- up for the shift, which rounds down.
unfoldable pub average : (old new : ℕ) → ℕ
average old new = if old == 0 then new else ((raised old * 7 + raised new) / 2 ^ 3 + 128) % 2 ^ 8

-- WMI_DATA_HDR_GET_DATA_TYPE and WMI_DATA_HDR_IS_AMSDU of the header at an address.
abbrev pub get_data_type : Mem → ℕ → ℕ
get_data_type m a = m (a + 1) / 2 ^ 6 % 2 ^ 2

abbrev pub is_amsdu : Mem → ℕ → Bool
is_amsdu m a = get16 m (a + 2) / 2 ^ 12 % 2 == 1

abbrev pub deliver : {C : Type 0} → Rx C → Netbuf → Rx C
deliver r b = record r { delivered = r.delivered ++ (b ∷ []) }

abbrev pub release : {C : Type 0} → Rx C → Netbuf → Rx C
release r b = record r { freed = r.freed ++ (b ∷ []) }

-- A data packet: meta data, 802.11 frames, A-MSDUs and ACL data are assertions. With
-- ENABLE_STACK_OFFLOAD the frame keeps its form (WMI_DOT3_2_DIX is A_OK).
unfoldable pub data_rx : {C : Type 0} → Rx C → Netbuf → Outcome (Rx C)
data_rx r b =
    let packet_len = to_len b % 2 ^ 16 in
    let dev_id = get16 r.mem (b.start + 4) % 2 ^ 4 in
    let data_type = get_data_type r.mem b.start in
    let r' = record r { rssi = average r.rssi (r.mem b.start) } in
    if not (r.is_ap dev_id) && ltb packet_len data_hdr_size || ltb max_rx_message_size packet_len
    then ran (release r b)
    else (do
      b' ← data_hdr_remove b
      assert (get_meta r.mem b.start == 0)
      assert (not (data_type == 1))
      assert (not (is_amsdu r.mem b.start) && not (data_type == 2))
      ran (deliver r' b'))

module _ {C : Type 0} (handler : (id device_id datap len : ℕ) → Mem → C → Outcome (ℕ × C)) where
  abbrev pub event_rx : Rx C → Netbuf → Outcome (Rx C)
  event_rx r b = do
    (is_freed, h) ← control_rx handler r.wmi r.mem r.host b
    let r' = record r { wmi = h.wmi; mem = h.mem; host = h.host }
    ran (if is_freed then release r' b else r')

  -- `Api_RxComplete`
  unfoldable pub rx_complete : Rx C → Netbuf → Outcome (Rx C)
  rx_complete r b =
      if r.wmi_enabled
      then (if b.trans.epid == 1
          then event_rx r b
          else (if r.promiscuous_mode
              then (do b' ← data_hdr_remove b; ran (deliver r b'))
              else data_rx r b))
      else ran (release r b)
