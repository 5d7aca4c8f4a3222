-- ===== src/Bus/Transfer/Bytes.antt =====
-- How many bytes a transfer moves.
use atheros_wifi.Prelude.{
  ℕ, zero, suc, ◌+◌, ◌-◌, ◌%◌, ◌^◌, ◌≤◌, ◌<◌, ◌≡◌, refl, ap, ◌∙◌, inl, inr, Bool, true, Option,
  none, some, arith, ltb, leb, ◌==◌, if◌then◌else◌, Bool-cases, if-true, if-false, Option-cases,
  Outcome, ran, ◌>>=◌,
}
use atheros_wifi.Netbuf.Buffer.{Netbuf, Frag, get_fragment}
use atheros_wifi.Netbuf.Buffer.Fragments.{total_from, frag_length}
use atheros_wifi.Bus.{a_ok, Custom, Bus}
use atheros_wifi.Bus.Transfer.{
  is_read, is_sync, one_buffer, round, buffers, padding, completed, transfer_data,
}

-- `count` is the number of bytes moved so far. A buffer is taken whole, at once or for later, and
-- the transfer itself may start; its end may have any status.
pub record Moves {D : Type 0} (hw : Custom D) (count : D → ℕ) : Type 0 where
  pub takes : (d : D) (f : Frag) (rd sync : Bool) → (hw.inout_buffer d f rd sync).0 ≡ 0
  pub counts :
      (d : D) (f : Frag) (rd sync : Bool)
      → count (hw.inout_buffer d f rd sync).1 ≡ count d + f.length
  pub starts : (d : D) (sync : Bool) → (hw.start_transfer d sync).0 ≡ 0
  pub start_count : (d : D) (sync : Bool) → count (hw.start_transfer d sync).1 ≡ count d
  pub end_count : (d : D) (sync : Bool) → count (hw.complete_transfer d sync).1 ≡ count d

get_fragment-past : (req : Netbuf) (i : ℕ) → req.num_frags < i → get_fragment req i ≡ none
unfolding get_fragment
get_fragment-past req i h = ground arith

get_fragment-within :
    (req : Netbuf) (i : ℕ) → i ≤ req.num_frags → (f : Frag) × (get_fragment req i ≡ some f)
unfolding get_fragment
get_fragment-within req i h = elim (Bool-cases (i == 0)) [
  | inl z ↦ rw z (_, refl)
  | inr p ↦
      let le : leb i req.num_frags ≡ true = ground arith in
      rw (p, le)
        (elim (Option-cases req.native_orig) [
          | inl e ↦ rw e (_, refl)
          | inr (orig, e) ↦ rw e (_, refl)
        ])
]

-- The bytes of the request, without the padding.
abbrev pub total : Netbuf → ℕ
total req = total_from req 0 (suc req.num_frags)

module _ {D : Type 0} (hw : Custom D) (count : D → ℕ) (m : Moves hw count) where
  one_buffer_lem :
      (d : D) (req : Netbuf) (f : Frag)
      → (d' : D) × (count d' ≡ count d + f.length) × (one_buffer hw d req f ≡ (0, d'))
  one_buffer_lem d req f = elim (Bool-cases (f.length == 0)) [
    | inl z ↦ (d, ground arith, if-true (f.length == 0) _ _ z)
    | inr p ↦ (
      _,
      m.counts d f (is_read req) (is_sync req),
      if-false (f.length == 0) _ _ p
          ∙ ap (λ s. (s, (hw.inout_buffer d f (is_read req) (is_sync req)).1))
              (m.takes d f (is_read req) (is_sync req)),
    )
  ]

  buffers-round :
      (n i total : ℕ) (d : D) (req : Netbuf) (found : Option Frag)
      → i < 2 ^ 8
      → get_fragment req i ≡ found
      → buffers hw (suc n) d req i total
        ≡ round hw (λ d' t. buffers hw n d' req (i + 1) t) d req total found
  unfolding buffers
  buffers-round n i total d req found lt e =
      let small : i % 2 ^ 8 ≡ i = omega arith in
      ap (round hw (λ d' t. buffers hw n d' req (i + 1) t) d req total)
        (ap (get_fragment req) small ∙ e)

  buffers_lem :
      (n i total : ℕ) (d : D) (req : Netbuf)
      → req.num_frags < 255
      → i + n ≡ req.num_frags + 1
      → total + total_from req i n < 2 ^ 16
      → (d' : D) × (count d' ≡ count d + total_from req i n)
        × (buffers hw (suc n) d req i total ≡ ran (0, total + total_from req i n, d'))
  buffers_lem zero i total d req few e fits = (
    d,
    omega arith,
    buffers-round 0 i total d req none (omega arith) (get_fragment-past req i (omega arith))
        ∙ ap (λ t. ran (0, t, d)) (omega arith),
  )
  buffers_lem (suc n) i total d req few e fits =
      let (f, eq) = get_fragment-within req i (omega arith) in
      let len : frag_length (get_fragment req i) ≡ f.length = ap frag_length eq in
      let (d1, c1, eq1) = one_buffer_lem d req f in
      let wrap : (total + f.length) % 2 ^ 16 ≡ total + f.length = omega arith in
      let (d2, c2, eq2) =
        buffers_lem n (i + 1) (total + f.length) d1 req few (omega arith) (omega arith) in
      let go : ℕ × D → Outcome (ℕ × ℕ × D) = λ (status, d').
        if status == a_ok
        then buffers hw (suc n) d' req (i + 1) ((total + f.length) % 2 ^ 16)
        else ran (status, total, d') in
      (
        d2,
        omega arith,
        buffers-round (suc n) i total d req (some f) (omega arith) eq
            ∙ ap go eq1
            ∙ ap (λ t. buffers hw (suc n) d1 req (i + 1) t) wrap
            ∙ eq2
            ∙ ap (λ t. ran (0, t, d2)) (omega arith),
      )

  padding_lem :
      (b : Bus D) (req : Netbuf) (total : ℕ) (d : D)
      → req.trans.transfer_length ≤ total + b.block_size
      → (d' : D) × (count d' ≡ count d + (req.trans.transfer_length - total))
        × (padding hw b req (0, total, d) ≡ ran (0, d'))
  padding_lem b req total d le = elim (Bool-cases (ltb total req.trans.transfer_length)) [
    | inl y ↦
        let rest = req.trans.transfer_length - total in
        let pad : Frag = record { payload = b.pad_buffer; length = rest } in
        let fits : leb rest b.block_size ≡ true = ground arith in
        let call = hw.inout_buffer d pad (is_read req) (is_sync req) in
        (
          call.1,
          m.counts d pad (is_read req) (is_sync req),
          if-true (ltb total req.trans.transfer_length) _ (ran (0, d)) y
              ∙ rw fits (ap (λ s. ran (s, call.1)) (m.takes d pad (is_read req) (is_sync req))),
        )
    | inr n ↦ (d, ground arith, if-false (ltb total req.trans.transfer_length) _ (ran (0, d)) n)
  ]

  -- For a request of fewer than 2 ^ 16 bytes in fewer than 255 fragments, padded by at most a
  -- block, and a bus that takes every buffer: `Bus_InOutDescriptorSet` returns with the status of
  -- the transfer's end, has moved every fragment and the padding up to the transfer length, and
  -- changes nothing in the driver.
  pub transfer_data_lem :
      (b : Bus D) (req : Netbuf)
      → req.num_frags < 255
      → total req < 2 ^ 16
      → req.trans.transfer_length ≤ total req + b.block_size
      → (status : ℕ) × (d : D) × (last : D) × (status ≡ (hw.complete_transfer last (is_sync req)).0)
        × (count d ≡ count b.device + total req + (req.trans.transfer_length - total req))
        × (transfer_data hw b req ≡ ran (status, record b { device = d }))
  unfolding transfer_data
  transfer_data_lem b req few fits pad =
      let sync = is_sync req in
      let d0 = (hw.start_transfer b.device sync).1 in
      let (d1, c1, eq1) =
        buffers_lem (suc req.num_frags) 0 0 d0 req few (omega arith) (omega arith) in
      let (d2, c2, eq2) = padding_lem b req (total req) d1 pad in
      let last = hw.complete_transfer d2 sync in
      let close : Outcome (ℕ × D) → Outcome (ℕ × Bus D) =
        λ o. o >>= λ (status, d). ran (status, record b { device = d }) in
      let end_close : Outcome (ℕ × D) → Outcome (ℕ × Bus D) =
        λ o. close (o >>= λ r. ran (completed hw req r)) in
      let pad_close : Outcome (ℕ × ℕ × D) → Outcome (ℕ × Bus D) =
        λ o. close (o >>= λ r. (padding hw b req r >>= λ r'. ran (completed hw req r'))) in
      let zero_total : 0 + total req ≡ total req = omega arith in
      let fuel : req.num_frags + 2 ≡ suc (suc req.num_frags) = omega arith in
      let c0 = m.start_count b.device sync in
      let c3 = m.end_count d2 sync in
      (
        last.0,
        last.1,
        d2,
        refl,
        omega arith,
        rw (m.starts b.device sync) (
            ap (λ n. pad_close (buffers hw n d0 req 0 0)) fuel
            ∙ ap pad_close eq1
            ∙ ap (λ t. pad_close (ran (0, t, d1))) zero_total
            ∙ ap end_close eq2),
      )
