-- ===== src/Reorder/Window.antt =====
-- What `aggr_process_recv_frm` forwards, against serial number arithmetic modulo 4096.
use atheros_wifi.Prelude.{
  ℕ, ◌+◌, ◌-◌, ◌%◌, ◌^◌, ◌<◌, bit_and, ◌≡◌, refl, ◌≢◌, ◌↔◌, ◌⊎◌, inl, inr, true, false, ◌&&◌, ◌||◌,
  arith, ◌==◌, lt→ltb, Bool-cases, length, get_or, get_or-set_self, get_or-set_ne, Returns, passes,
  passes_at,
}
use atheros_wifi.Reorder.{AggrInfo, num_of_tids, skips_window, out_of_order, process_recv_frm}

-- How far `seq_no` lies ahead of `last` on the circle of 4096 sequence numbers.
abbrev pub ahead : ℕ → ℕ → ℕ
ahead last seq_no = (seq_no + 4096 - last) % 4096

-- The frame is less than half the circle ahead, or at exactly half of it and has wrapped.
abbrev pub InWindow : ℕ → ℕ → Type 0
InWindow last seq_no = (ahead last seq_no < 2048) ⊎ ((ahead last seq_no ≡ 2048) × (seq_no < last))

out_of_order-false_iff :
    (last seq_no : ℕ)
    → last < 4096
    → seq_no < 4096
    → (out_of_order last seq_no ≡ false) ↔ InWindow last seq_no
out_of_order-false_iff last seq_no hl hs = ground arith

-- Only an empty mask and tid 0 skip the window.
skips_table :
    passes (λ tid. (bit_and 0 (2 ^ tid) == 0) && ((bit_and 1 (2 ^ tid) == 0) || (tid == 0))) 8
    ≡ true
unfolding passes
skips_table = refl

and_tid : (tid : ℕ) → tid < 8 → (bit_and 0 (2 ^ tid) ≡ 0) × ((bit_and 1 (2 ^ tid) ≡ 0) ⊎ (tid ≡ 0))
and_tid tid h = ground (arith, passes_at _ 8 tid h skips_table)

pub skips_window-false :
    (mask tid : ℕ) → tid < 8 → (mask ≢ 0) ⊎ (tid ≢ 0) → skips_window mask tid ≡ false
unfolding skips_window
skips_window-false mask tid h ne = elim (Bool-cases (mask == 0)) [
  | inl e ↦ rw e (ground (arith, and_tid tid h))
  | inr e ↦ rw e (ground (arith, and_tid tid h))
]

pub skips_window-true : skips_window 0 0 ≡ true
unfolding skips_window
skips_window-true = refl

-- For a tid below 8 and sequence numbers below 4096, where the window test runs (some tid is
-- enabled, or the frame is not of tid 0; the comment on the function says that without aggregation
-- every frame is forwarded, but with no tid enabled the test still runs for a tid other than 0), a
-- frame is forwarded exactly when its number is in the window of the last one forwarded on its
-- tid. A forwarded frame moves that window and no other; a dropped one changes nothing.
pub process_recv_frm_lem :
    (p : AggrInfo) (tid seq_no : ℕ)
    → tid < num_of_tids
    → length p.seq_last ≡ num_of_tids
    → (p.aggr_enabled_tid_mask ≢ 0) ⊎ (tid ≢ 0)
    → get_or p.seq_last tid 0 < 4096
    → seq_no < 4096
    → Returns
        (λ (forward, q).
          ((forward ≡ true) ↔ InWindow (get_or p.seq_last tid 0) seq_no)
          × (q.aggr_enabled_tid_mask ≡ p.aggr_enabled_tid_mask)
          × (forward ≡ true → get_or q.seq_last tid 0 ≡ seq_no)
          × (forward ≡ false → q ≡ p)
          × ((other : ℕ) → tid ≢ other → get_or q.seq_last other 0 ≡ get_or p.seq_last other 0))
        (process_recv_frm p tid seq_no)
unfolding process_recv_frm
process_recv_frm_lem p tid seq_no h len ne hl hs =
    let keeps = skips_window-false p.aggr_enabled_tid_mask tid h ne in
    let window = out_of_order-false_iff (get_or p.seq_last tid 0) seq_no hl hs in
    elim (Bool-cases (out_of_order (get_or p.seq_last tid 0) seq_no)) [
      | inl late ↦
          rw (lt→ltb tid 8 h, keeps, late) (ground arith, refl, (λ e. cc), (λ e. refl), λ o n. refl)
      | inr fits ↦
          rw (lt→ltb tid 8 h, keeps, fits)
            (
              ground arith,
              refl,
              (λ e. get_or-set_self p.seq_last tid seq_no 0 (omega arith)),
              (λ e. cc),
              λ o n. get_or-set_ne p.seq_last tid o seq_no 0 n,
            )
    ]
