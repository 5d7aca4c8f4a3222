-- ===== src/Reorder/Mask.antt =====
-- The enabled mask under ADDBA and DELBA events, and what a disabled tid meets.
use atheros_wifi.Prelude.{
  ℕ, ◌+◌, ◌-◌, ◌%◌, ◌^◌, ◌≤◌, ◌<◌, bit_and, bit_or, ◌≡◌, refl, ◌∙◌, ◌≢◌, inr, Bool, true, false,
  ◌&&◌, ◌||◌, arith, ltb, ◌==◌, if◌then◌else◌, lt→ltb, le→ltb, length, get_or, length-set,
  get_or-set_self, get_or-set_ne, ran, halted, Returns, passes, passes_at,
}
use atheros_wifi.Reorder.{
  AggrInfo, num_of_tids, recv_addba_req_evt, recv_delba_req_evt, out_of_order, process_recv_frm,
}
use atheros_wifi.Reorder.Window.{skips_window-false}

-- The bit of `tid` in the mask.
abbrev pub bit_set : ℕ → ℕ → Bool
bit_set mask tid = ltb 0 (bit_and mask (2 ^ tid))

pub record IsAggr (p : AggrInfo) : Type 0 where
  pub mask_small : p.aggr_enabled_tid_mask < 256
  pub one_each : length p.seq_last ≡ num_of_tids

abbrev same : Bool → Bool → Bool
same true b = b
same false b = if b then false else true

same-eq : (a b : Bool) → same a b ≡ true → a ≡ b
same-eq a b h = ground arith

abbrev or_row : ℕ → ℕ → ℕ → Bool
or_row mask tid other =
    same (bit_set (bit_or mask (2 ^ tid)) other) (tid == other || bit_set mask other)

abbrev clear_row : ℕ → ℕ → ℕ → Bool
clear_row mask tid other =
    same (bit_set (bit_and mask (2 ^ 32 - 1 - 2 ^ tid)) other)
      (if tid == other then false else bit_set mask other)

abbrev row : ℕ → ℕ → Bool
row mask tid =
    ltb (bit_or mask (2 ^ tid)) 256
    && ltb (bit_and mask (2 ^ 32 - 1 - 2 ^ tid)) 256
    && passes (λ other. or_row mask tid other && clear_row mask tid other) 8

mask_table : passes (λ mask. passes (row mask) 8) 256 ≡ true
unfolding passes
mask_table = refl

module _ (mask tid : ℕ) (hm : mask < 256) (ht : tid < 8) where
  row_holds : row mask tid ≡ true
  row_holds =
      passes_at (row mask) 8 tid ht (passes_at (λ m. passes (row m) 8) 256 mask hm mask_table)

  pub masks_small : (bit_or mask (2 ^ tid) < 256) × (bit_and mask (2 ^ 32 - 1 - 2 ^ tid) < 256)
  masks_small = ground (arith, row_holds)

  columns : (other : ℕ) → other < 8 → (or_row mask tid other && clear_row mask tid other) ≡ true
  columns other h =
      passes_at (λ o. or_row mask tid o && clear_row mask tid o) 8 other h
        (ground (arith, row_holds))

  pub bit_set-bit_or :
      (other : ℕ)
      → other < 8
      → bit_set (bit_or mask (2 ^ tid)) other ≡ (tid == other || bit_set mask other)
  bit_set-bit_or other h = same-eq _ _ (ground (arith, columns other h))

  pub bit_set-clear :
      (other : ℕ)
      → other < 8
      → bit_set (bit_and mask (2 ^ 32 - 1 - 2 ^ tid)) other
        ≡ (if tid == other then false else bit_set mask other)
  bit_set-clear other h = same-eq _ _ (ground (arith, columns other h))

-- On a well-formed context, an ADDBA event for a tid below 8 enables that tid and no other, starts
-- its window at the event's number, leaves the windows of the others, and keeps the context well
-- formed.
recv_addba_req_evt_lem :
    (p : AggrInfo) (tidaid seq_no : ℕ)
    → IsAggr p
    → tidaid % 16 < num_of_tids
    → Returns
        (λ q.
          IsAggr q
          × ((other : ℕ)
              → other < num_of_tids
              → bit_set q.aggr_enabled_tid_mask other
                ≡ (tidaid % 16 == other || bit_set p.aggr_enabled_tid_mask other))
          × (get_or q.seq_last (tidaid % 16) 0 ≡ seq_no)
          × ((other : ℕ)
              → tidaid % 16 ≢ other
              → get_or q.seq_last other 0 ≡ get_or p.seq_last other 0))
        (recv_addba_req_evt p tidaid seq_no)
unfolding recv_addba_req_evt
recv_addba_req_evt_lem p tidaid seq_no w h = rw (lt→ltb (tidaid % 16) 8 h) (
  record {
    mask_small = (masks_small _ _ w.mask_small h).0;
    one_each = length-set p.seq_last (tidaid % 16) seq_no ∙ w.one_each;
  },
  bit_set-bit_or _ _ w.mask_small h,
  get_or-set_self p.seq_last (tidaid % 16) seq_no 0 (omega (arith, w.one_each)),
  λ o n. get_or-set_ne p.seq_last (tidaid % 16) o seq_no 0 n,
)

-- On a well-formed context, a DELBA event for a tid below 8 disables that tid and no other, leaves
-- every window, and keeps the context well formed.
recv_delba_req_evt_lem :
    (p : AggrInfo) (tidaid : ℕ)
    → IsAggr p
    → tidaid % 16 < num_of_tids
    → Returns
        (λ q.
          IsAggr q
          × ((other : ℕ)
              → other < num_of_tids
              → bit_set q.aggr_enabled_tid_mask other
                ≡ (if tidaid % 16 == other then false else bit_set p.aggr_enabled_tid_mask other))
          × (q.seq_last ≡ p.seq_last))
        (recv_delba_req_evt p tidaid)
unfolding recv_delba_req_evt
recv_delba_req_evt_lem p tidaid w h = rw (lt→ltb (tidaid % 16) 8 h) (
  record { mask_small = (masks_small _ _ w.mask_small h).1; one_each = w.one_each },
  bit_set-clear _ _ w.mask_small h,
  refl,
)

-- Either event halts the driver where its tid is 8 or more.
pub evts_halt :
    (p : AggrInfo) (tidaid seq_no : ℕ)
    → num_of_tids ≤ tidaid % 16
    → (recv_addba_req_evt p tidaid seq_no ≡ halted) × (recv_delba_req_evt p tidaid ≡ halted)
unfolding recv_addba_req_evt recv_delba_req_evt
evts_halt p tidaid seq_no h = rw (le→ltb (tidaid % 16) 8 h) (refl, refl)

-- With no tid enabled at all, a frame of tid 1 to 7 that is behind the number left in its slot, by
-- no more than 2047, is dropped nevertheless.
disabled_tid_drops :
    (p : AggrInfo) (tid seq_no : ℕ)
    → tid < num_of_tids
    → p.aggr_enabled_tid_mask ≡ 0
    → tid ≢ 0
    → seq_no < get_or p.seq_last tid 0
    → get_or p.seq_last tid 0 ≤ seq_no + 2047
    → process_recv_frm p tid seq_no ≡ ran (false, p)
unfolding process_recv_frm
disabled_tid_drops p tid seq_no h m ne lt le =
    let drops : out_of_order (get_or p.seq_last tid 0) seq_no ≡ true = ground arith in
    rw (lt→ltb tid 8 h, skips_window-false p.aggr_enabled_tid_mask tid h (inr ne), drops)

-- On a well-formed context, for a tid below 8: an ADDBA event enables that tid and no other,
-- starts its window at the event's number and leaves the windows of the others; a DELBA event
-- disables that tid and no other, and leaves every window. Both keep the context well formed.
pub events-IsAggr :
    (p : AggrInfo) (tidaid seq_no : ℕ)
    → IsAggr p
    → tidaid % 16 < num_of_tids
    → Returns
        (λ q.
          IsAggr q
          × ((other : ℕ)
              → other < num_of_tids
              → bit_set q.aggr_enabled_tid_mask other
                ≡ (tidaid % 16 == other || bit_set p.aggr_enabled_tid_mask other))
          × (get_or q.seq_last (tidaid % 16) 0 ≡ seq_no)
          × ((other : ℕ)
              → tidaid % 16 ≢ other
              → get_or q.seq_last other 0 ≡ get_or p.seq_last other 0))
        (recv_addba_req_evt p tidaid seq_no)
      × Returns
          (λ q.
            IsAggr q
            × ((other : ℕ)
                → other < num_of_tids
                → bit_set q.aggr_enabled_tid_mask other
                  ≡ (if tidaid % 16 == other then false else bit_set p.aggr_enabled_tid_mask other))
            × (q.seq_last ≡ p.seq_last))
          (recv_delba_req_evt p tidaid)
events-IsAggr p tidaid seq_no w h =
    (recv_addba_req_evt_lem p tidaid seq_no w h, recv_delba_req_evt_lem p tidaid w h)
