-- ===== src/Reorder.antt =====
-- common_src/reorder/rcv_aggr.c: the receive window of each aggregated traffic identifier.
pub mod Window
pub mod Mask
mod Tests
use atheros_wifi.Prelude.{
  ℕ, ◌-◌, ◌/◌, ◌%◌, ◌^◌, Bool, true, false, List, Outcome, ran, ◌>>=◌, ◌>>◌, assert, bit_and,
  bit_or, ltb, leb, ◌==◌, if◌then◌else◌, get_or, set,
}

abbrev pub num_of_tids : ℕ
num_of_tids = 8

abbrev pub ieee80211_max_seq_no : ℕ
ieee80211_max_seq_no = 0xfff

-- `AGGR_INFO`: a uint32_t mask and eight uint16_t sequence numbers.
pub record AggrInfo : Type 0 where
  pub aggr_enabled_tid_mask : ℕ
  pub seq_last : List ℕ

pub reset_state : AggrInfo → AggrInfo
reset_state p = record p { aggr_enabled_tid_mask = 0 }

-- `aggr_init` resets the global context and returns it.
unfoldable pub init : AggrInfo → AggrInfo
unfolding reset_state
init aggr_context = reset_state aggr_context

-- `win_sz` is not used.
pub recv_addba_req_evt : AggrInfo → ℕ → ℕ → Outcome AggrInfo
recv_addba_req_evt p tidaid seq_no = do
  let tid = tidaid % 16
  assert (ltb tid num_of_tids)
  ran (record p {
    aggr_enabled_tid_mask = bit_or p.aggr_enabled_tid_mask (2 ^ tid);
    seq_last = set p.seq_last tid seq_no;
  })

-- `mask &= ~(1 << tid)` on 32 bits
pub recv_delba_req_evt : AggrInfo → ℕ → Outcome AggrInfo
recv_delba_req_evt p tidaid = do
  let tid = tidaid % 16
  assert (ltb tid num_of_tids)
  ran (record p { aggr_enabled_tid_mask = bit_and p.aggr_enabled_tid_mask (2 ^ 32 - 1 - 2 ^ tid) })

-- `!mask & (1 << tid)`: C applies `!` to the mask first, so the left operand is 0 or 1.
pub skips_window : ℕ → ℕ → Bool
skips_window mask tid = if bit_and (if mask == 0 then 1 else 0) (2 ^ tid) == 0 then false else true

-- The test of the last and the new sequence number; true drops the frame.
abbrev pub out_of_order : ℕ → ℕ → Bool
out_of_order last seq_no =
    if ltb seq_no last
    then leb (last - seq_no) (ieee80211_max_seq_no / 2)
    else ltb (ieee80211_max_seq_no / 2) (seq_no - last)

abbrev pub judge : AggrInfo → ℕ → ℕ → Bool × AggrInfo
judge p tid seq_no =
    if skips_window p.aggr_enabled_tid_mask tid
    then (true, p)
    else (if out_of_order (get_or p.seq_last tid 0) seq_no
        then (false, p)
        else (true, record p { seq_last = set p.seq_last tid seq_no }))

-- `is_amsdu` and `osbuf` are not used. True forwards the frame.
pub process_recv_frm : AggrInfo → ℕ → ℕ → Outcome (Bool × AggrInfo)
process_recv_frm p tid seq_no = do assert (ltb tid num_of_tids); ran (judge p tid seq_no)
