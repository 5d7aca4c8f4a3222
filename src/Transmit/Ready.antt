-- ===== src/Transmit/Ready.antt =====
-- When the driver decides to send.
use atheros_wifi.Prelude.{
  ℕ, ◌+◌, ◌-◌, ◌*◌, ◌^◌, ◌≤◌, ◌<◌, ◌≡◌, refl, ◌∙◌, ◌≢◌, inl, inr, Bool, true, false, ◌||◌, none,
  List, [], ◌∷◌, arith, leb, ◌==◌, if◌then◌else◌, Bool-cases, length, ran, ◌>>=◌, Returns,
  Returns-bind,
}
use atheros_wifi.Util.{get_endpoint}
use atheros_wifi.Netbuf.Buffer.{Netbuf, to_len}
use atheros_wifi.Htc.{Driver, get_credit_counter_update}
use atheros_wifi.Htc.Account.{
  AreEndpoints, Accounted, AreEndpoints→Accounted, get_credit_counter_update-Accounted,
}
use atheros_wifi.Transmit.{
  Hcd, Tx, send_padded_len, credits_required, wrbuf_rsvd_bytes, drop_tx_data_packets,
  out_of_credits, refused_or_not, acquire_credits, check_room, ready_for, tx_ready,
}
use atheros_wifi.Transmit.Purge.{HaveCallbacks, drop_tx_data_packets_lem}

-- With credits of 1664 bytes, the size that the driver assumes, the credits of a request cover a
-- transfer of 1 to 2 ^ 31 - 1 bytes, and one fewer would not: the quotient is rounded up.
credits_required_lem :
    (transfer_length : ℕ)
    → 0 < transfer_length
    → transfer_length < 2 ^ 31
    → let n = credits_required transfer_length 1664 in
      (transfer_length ≤ n * 1664) × ((n - 1) * 1664 < transfer_length)
unfolding credits_required
credits_required_lem t q h = ground arith

-- The bus answers, and every request of the queue has a callback.
abbrev pub IsTx : Hcd → Tx → Type 0
IsTx h t =
    AreEndpoints t.htc
    × ((a : ℕ) → h.pio a ≢ none)
    × (length t.tx_queue < 2 ^ 16)
    × HaveCallbacks t.tx_queue

dropped :
    (u : Tx)
    → length u.tx_queue < 2 ^ 16
    → HaveCallbacks u.tx_queue
    → Returns
        (λ t'. t'.htc ≡ u.htc)
        (drop_tx_data_packets u >>= λ t'. ran (record t' { credit_deadlock_counter = 0 }))
dropped u h c = rw (drop_tx_data_packets_lem u h c) refl

out_of_credits_lem :
    (t : Tx)
    → length t.tx_queue < 2 ^ 16
    → HaveCallbacks t.tx_queue
    → Returns (λ t'. t'.htc ≡ t.htc) (out_of_credits t)
unfolding out_of_credits
out_of_credits_lem t h c = elim (Bool-cases t.rx_buffer_status) [
  | inl y ↦ rw y refl
  | inr n ↦ (elim (Bool-cases (leb 2 t.credit_deadlock_counter)) [
    | inl y ↦ rw (n, y) (dropped _ h c)
    | inr m ↦ rw (n, m) refl
  ])
]

-- What holds once credits are there for a request of the endpoint `i`.
abbrev Acquired : Tx → ℕ → Bool × Tx → Type 0
Acquired t i (has_credit, t') =
    Accounted t.htc t'.htc
    × (has_credit ≡ true
        → (t'.tx_queue ≡ t.tx_queue) × (t'.spi ≡ t.spi) × (0 < (t'.htc.ep i).credits))

refused_or_not_lem :
    (t₀ t : Tx) (i : ℕ)
    → length t.tx_queue < 2 ^ 16
    → HaveCallbacks t.tx_queue
    → t.tx_queue ≡ t₀.tx_queue
    → t.spi ≡ t₀.spi
    → Accounted t₀.htc t.htc
    → Returns (Acquired t₀ i) (refused_or_not (t.htc.ep i).credits t)
refused_or_not_lem t₀ t i h c q s a = elim (Bool-cases ((t.htc.ep i).credits == 0)) [
  | inl y ↦ rw y (
      Returns-bind (λ t'. t'.htc ≡ t.htc) (Acquired t₀ i) (out_of_credits t) _
        (out_of_credits_lem t h c) λ t' e. (rw e a, λ no. absurd (ground arith)))
  | inr n ↦ let left : 0 < (t.htc.ep i).credits = ground arith in rw n (a, λ _. (q, s, left))
]

acquire_credits_lem :
    (h : Hcd) (t : Tx) (ep_id : ℕ)
    → IsTx h t
    → Returns (Acquired t (get_endpoint ep_id)) (acquire_credits h t ep_id)
unfolding acquire_credits
acquire_credits_lem h t ep_id (v, p, l, c) =
    let i = get_endpoint ep_id in
    elim (Bool-cases ((t.htc.ep i).credits == 0)) [
      | inl y ↦ rw y (
          Returns-bind (Accounted t.htc) (Acquired t i)
            (get_credit_counter_update h.pio t.htc ep_id) _
            (get_credit_counter_update-Accounted h.pio t.htc ep_id v p)
            λ d a. refused_or_not_lem t (record t { htc = d }) i l c refl refl a)
      | inr n ↦
          let left : 0 < (t.htc.ep i).credits = ground arith in
          rw n (AreEndpoints→Accounted t.htc v, λ _. (refl, refl, left))
    ]

-- A request can be sent: it is the first of the queue, its endpoint has a credit, and the target
-- has the room for it.
abbrev pub CanSend : Driver → Tx → List Netbuf → Type 0
CanSend d t [] = ⊥
CanSend d t (r ∷ rest) =
    (t.tx_queue ≡ r ∷ rest)
    × (0 < (t.htc.ep (get_endpoint r.trans.epid)).credits)
    × (send_padded_len d (to_len r) + wrbuf_rsvd_bytes ≤ t.spi.write_buffer_space)

abbrev Decided : Tx → List Netbuf → Bool × Tx → Type 0
Decided t queue (ready, t') = Accounted t.htc t'.htc × (ready ≡ true → CanSend t.htc t' queue)

-- Every request fits one credit, as `Driver_SubmitTxRequest` works it out.
abbrev pub Fit : Driver → List Netbuf → Type 0
Fit d [] = Unit
Fit d (r ∷ rest) = (send_padded_len d (to_len r) ≤ d.credit_size) × Fit d rest

check_room_lem :
    (h : Hcd) (t : Tx) (size : ℕ)
    → let (ready, t') = check_room h t size in
      (t'.htc ≡ t.htc)
      × (t'.tx_queue ≡ t.tx_queue)
      × (ready ≡ true → size + wrbuf_rsvd_bytes ≤ t'.spi.write_buffer_space)
unfolding check_room
check_room_lem h t size = ground arith

decided :
    (h : Hcd) (t : Tx) (r : Netbuf) (rest : List Netbuf) (has_credit : Bool) (t' : Tx)
    → t.tx_queue ≡ r ∷ rest
    → Acquired t (get_endpoint r.trans.epid) (has_credit, t')
    → Decided t (r ∷ rest) (
        if has_credit
        then check_room h
            (record t' { credit_deadlock_counter = 0 })
            (send_padded_len t.htc (to_len r))
        else (false, t'))
decided h t r rest false t' e (a, got) = (a, λ no. absurd (ground arith))
decided h t r rest true t' e (a, got) =
    let (q, s, left) = got refl in
    let u = record t' { credit_deadlock_counter = 0 } in
    let size = send_padded_len t.htc (to_len r) in
    let (d, q', room) = check_room_lem h u size in
    (rw d a, λ yes. (q' ∙ q ∙ e, rw d left, room yes))

ready_for_lem :
    (h : Hcd) (t : Tx) (queue : List Netbuf)
    → t.tx_queue ≡ queue
    → IsTx h t
    → Fit t.htc queue
    → Returns (Decided t queue) (ready_for h t queue)
ready_for_lem h t [] e (v, _, _, _) f =
    (AreEndpoints→Accounted t.htc v, λ no. absurd (ground arith))
ready_for_lem h t (r ∷ rest) e w (fit, _) =
    let size = send_padded_len t.htc (to_len r) in
    let fits : leb size t.htc.credit_size ≡ true = ground arith in
    rw fits (
      Returns-bind (Acquired t (get_endpoint r.trans.epid)) (Decided t (r ∷ rest))
        (acquire_credits h t r.trans.epid) _ (acquire_credits_lem h t r.trans.epid w)
        λ (has, t') g. decided h t r rest has t' e g)

-- Where the bus answers, every endpoint is in range, and every queued request has a callback and
-- fits one credit, `Driver_TxReady` returns and keeps the credit account of every endpoint; where
-- it answers yes, the queue still has its first request at its head, whose endpoint has a credit
-- and for whose padded length the target's buffer has the room, with the reserved bytes.
pub tx_ready_lem :
    (h : Hcd) (t : Tx)
    → IsTx h t
    → Fit t.htc t.tx_queue
    → Returns
        (λ (ready, t'). Accounted t.htc t'.htc × (ready ≡ true → CanSend t.htc t' t.tx_queue))
        (tx_ready h t)
unfolding tx_ready
tx_ready_lem h t (v, p, l, c) f =
    elim (Bool-cases (t.fatal_error || (t.dma_in_prog || (t.dma_complete || t.spi.write_wait)))) [
      | inl y ↦ rw y (AreEndpoints→Accounted t.htc v, λ no. absurd (ground arith))
      | inr n ↦
          rw n
            (ready_for_lem h (record t { credit_deadlock = false }) t.tx_queue refl (v, p, l, c) f)
    ]
