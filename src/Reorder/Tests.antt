-- ===== src/Reorder/Tests.antt =====
-- Runs of the receive window, and the theorems at concrete contexts.
use atheros_wifi.Prelude.{
  ℕ, ◌<◌, ◌≡◌, refl, ◌≢◌, ◌↔◌, inr, true, false, ◌||◌, [], ◌∷◌, arith, ◌==◌, if◌then◌else◌, get_or,
  ran, Returns,
}
use atheros_wifi.Reorder.{
  init, reset_state, AggrInfo, skips_window, recv_addba_req_evt, recv_delba_req_evt,
  process_recv_frm,
}
use atheros_wifi.Reorder.Window.{InWindow, process_recv_frm_lem}
use atheros_wifi.Reorder.Mask.{IsAggr, bit_set, events-IsAggr}

-- Tids 1 and 3 are enabled; tid 3 last forwarded 4000.
abbrev busy : AggrInfo
busy = record { aggr_enabled_tid_mask = 10; seq_last = 0 ∷ 7 ∷ 0 ∷ 4000 ∷ 0 ∷ 0 ∷ 0 ∷ 0 ∷ [] }

abbrev idle : AggrInfo
idle = record busy { aggr_enabled_tid_mask = 0 }

-- 5 comes 101 after 4000 on the circle.
wraps_forward :
    process_recv_frm busy 3 5
    ≡ ran (true, record busy { seq_last = 0 ∷ 7 ∷ 0 ∷ 5 ∷ 0 ∷ 0 ∷ 0 ∷ 0 ∷ [] })
unfolding process_recv_frm skips_window
wraps_forward = refl

process_recv_frm_lem_example :
    Returns
      (λ (forward, q).
        ((forward ≡ true) ↔ InWindow 4000 5)
        × (q.aggr_enabled_tid_mask ≡ 10)
        × (forward ≡ true → get_or q.seq_last 3 0 ≡ 5)
        × (forward ≡ false → q ≡ busy)
        × ((other : ℕ) → 3 ≢ other → get_or q.seq_last other 0 ≡ get_or busy.seq_last other 0))
      (process_recv_frm busy 3 5)
process_recv_frm_lem_example =
    process_recv_frm_lem busy 3 5 (omega arith) refl (inr (omega arith)) (omega arith) (omega arith)

busy-IsAggr : IsAggr busy
busy-IsAggr = record { mask_small = omega arith; one_each = refl }

events-IsAggr_example :
    Returns
      (λ q.
        IsAggr q
        × ((other : ℕ)
            → other < 8
            → bit_set q.aggr_enabled_tid_mask other ≡ (3 == other || bit_set 10 other))
        × (get_or q.seq_last 3 0 ≡ 99)
        × ((other : ℕ) → 3 ≢ other → get_or q.seq_last other 0 ≡ get_or busy.seq_last other 0))
      (recv_addba_req_evt busy 0x23 99)
    × Returns
        (λ q.
          IsAggr q
          × ((other : ℕ)
              → other < 8
              → bit_set q.aggr_enabled_tid_mask other
                ≡ (if 3 == other then false else bit_set 10 other))
          × (q.seq_last ≡ busy.seq_last))
        (recv_delba_req_evt busy 0x23)
events-IsAggr_example = events-IsAggr busy 0x23 99 busy-IsAggr (omega arith)

cleared : init busy ≡ idle
unfolding init reset_state
cleared = refl
