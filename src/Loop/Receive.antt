-- ===== src/Loop/Receive.antt =====
-- When the driver decides to receive.
use atheros_wifi.Prelude.{
  ℕ, ◌+◌, ◌/◌, ◌%◌, ◌^◌, ◌≤◌, ◌≡◌, refl, sym, ◌≢◌, inl, inr, Bool, true, false, ◌&&◌, ◌||◌, not,
  Option, none, some, arith, ltb, ◌==◌, if◌then◌else◌, Bool-cases, if-true, if-false, Option-cases,
  Outcome, ran, ◌>>=◌, ◌>>◌, assert, Returns, Returns-bind,
}
use atheros_wifi.Netbuf.Buffer.{Netbuf, rx_complete}
use atheros_wifi.Htc.Frame.{htc_hdr_length}
use atheros_wifi.Transmit.{send_padded_len}
use mathlib.Core.Path.{subst}
use atheros_wifi.Bus.{
  a_ok, word, irqs_of, Custom, Bus, intr_cause_reg, write_reg, read_reg, unmask_interrupts,
}
use atheros_wifi.Bus.Interrupt.{pkt_avail}
use atheros_wifi.Bus.Start.{get_lookahead}
use atheros_wifi.Loop.{Loop}

-- No request is on the bus or waits for its completion, and there was no fatal error.
abbrev pub is_idle : {D : Type 0} → Bus D → Bool
is_idle b = not (b.fatal_error || (b.dma_in_prog || b.dma_complete))

-- The packet's interrupt is acknowledged.
unfoldable pub clear_packet : {D : Type 0} → Custom D → Bus D → ℕ × Bus D
clear_packet hw b =
    let (status, cause, b1) = read_reg hw b intr_cause_reg in
    if status == a_ok
    then (if (irqs_of cause).pkt_avail
        then write_reg hw b1 intr_cause_reg (word pkt_avail)
        else (a_ok, b1))
    else (status, b1)

-- The look-ahead, if there is none from before.
unfoldable pub look : {D : Type 0} → Custom D → Bus D → Outcome (Bus D)
look hw b =
    if b.lookahead == 0
    then (do (status, b') ← get_lookahead hw b; assert (status == a_ok); ran b')
    else ran b

-- The length of the payload in the header that the look-ahead begins.
abbrev pub announced : {D : Type 0} → Bus D → ℕ
announced b = b.lookahead / 2 ^ 16 % 2 ^ 16

-- Nothing more to read: packets are waited for again.
unfoldable pub no_packet : {D : Type 0} → Custom D → Bus D → Bus D
no_packet hw b =
    if b.pending_irq_acks == 0
    then b
    else (unmask_interrupts hw (record b { pending_irq_acks = 0 }) pkt_avail).1

-- The buffer to receive into: `get_rx_req` is CUSTOM_DRIVER_GET_RX_REQ.
unfoldable pub take_buffer : {D : Type 0} → (ℕ → Option Netbuf) → Loop D → Bool × Loop D
take_buffer get_rx_req l = elim l.rx_req [
  | some _ ↦ (true, l)
  | none ↦
      let len = send_padded_len l.htc (announced l.bus + htc_hdr_length) in
      if l.rx_buffer_status
      then (elim (get_rx_req len) [
        | none ↦ (false, l)
        | some r ↦
            let trans = record r.trans { cb = some rx_complete } in
            (true, record l { rx_req = some (record r { trans = trans }) })
      ])
      else (false, l)
]

-- What the look-ahead says, with the bytes that can be read.
abbrev pub judge : {D : Type 0} → Custom D → (ℕ → Option Netbuf) → Loop D → Bool × Loop D
judge hw get_rx_req l =
    if l.bus.lookahead == 0
    then (false, record l { bus = no_packet hw l.bus })
    else (if ltb l.bus.read_buffer_space htc_hdr_length
          || ltb l.bus.read_buffer_space (announced l.bus)
        then (false, record l { bus = record l.bus { lookahead = 0 } })
        else take_buffer get_rx_req l)

abbrev pub can_receive : {D : Type 0} → Loop D → Bool
can_receive l =
    let has_buffer : Bool = elim l.rx_req [ some _ ↦ true | none ↦ l.rx_buffer_status ] in
    is_idle l.bus && not (l.bus.pending_irq_acks == 0) && has_buffer

-- `Driver_RxReady`
unfoldable pub rx_ready :
    {D : Type 0} → Custom D → (ℕ → Option Netbuf) → Loop D → Outcome (Bool × Loop D)
rx_ready hw get_rx_req l =
    let (status, b) = clear_packet hw l.bus in
    if can_receive l
    then (if status == a_ok && l.enabled_spi_ints.pkt_avail
        then (do b' ← look hw b; ran (judge hw get_rx_req (record l { bus = b' })))
        else ran (false, record l { bus = b }))
    else ran (false, l)

-- A buffer is there, and the bus is as it was.
abbrev Taken : {D : Type 0} → Loop D → Bool × Loop D → Type 0
Taken l (ready, l') = (l'.bus ≡ l.bus) × (ready ≡ true → (r : Netbuf) × (l'.rx_req ≡ some r))

take_buffer_lem :
    {D : Type 0} (get_rx_req : ℕ → Option Netbuf) (l : Loop D) → Taken l (take_buffer get_rx_req l)
unfolding take_buffer
take_buffer_lem get_rx_req l =
    let len = send_padded_len l.htc (announced l.bus + htc_hdr_length) in
    elim (Option-cases l.rx_req) [
      | inr (r, e) ↦ rw e (refl, λ _. (r, refl))
      | inl e ↦ (elim (Bool-cases l.rx_buffer_status) [
        | inr n ↦ rw (e, n) (refl, λ no_buffer. absurd (ground arith))
        | inl y ↦ (elim (Option-cases (get_rx_req len)) [
          | inl f ↦ rw (e, y, f) (refl, λ no_buffer. absurd (ground arith))
          | inr (r, f) ↦ rw (e, y, f) (refl, λ _. (_, refl))
        ])
      ])
    ]

-- A packet is announced, the bytes that can be read are at least a header's and at least those of
-- its payload, not of both together, and there is a buffer for it.
abbrev pub CanReceive : {D : Type 0} → Loop D → Loop D → Type 0
CanReceive l l' =
    (is_idle l.bus ≡ true)
    × (l'.bus.lookahead ≢ 0)
    × (htc_hdr_length ≤ l'.bus.read_buffer_space)
    × (announced l'.bus ≤ l'.bus.read_buffer_space)
    × ((r : Netbuf) × (l'.rx_req ≡ some r))

abbrev pub IfReady : {D : Type 0} → Loop D → Bool × Loop D → Type 0
IfReady l (ready, l') = ready ≡ true → CanReceive l l'

judge_lem :
    {D : Type 0} (hw : Custom D) (get_rx_req : ℕ → Option Netbuf) (l₀ l : Loop D)
    → is_idle l₀.bus ≡ true
    → IfReady l₀ (judge hw get_rx_req l)
judge_lem hw get_rx_req l₀ l idle =
    let none_left = l.bus.lookahead == 0 in
    let short =
      ltb l.bus.read_buffer_space htc_hdr_length || ltb l.bus.read_buffer_space (announced l.bus) in
    let (r, l') = take_buffer get_rx_req l in
    let (same, taken) = take_buffer_lem get_rx_req l in
    elim (Bool-cases none_left) [
      | inl y ↦
          subst (IfReady l₀)
            (sym (if-true none_left (false, record l { bus = no_packet hw l.bus }) _ y))
            (λ wrong. absurd (ground arith))
      | inr n ↦
          subst (IfReady l₀)
            (sym (if-false none_left (false, record l { bus = no_packet hw l.bus }) _ n))
            (elim (Bool-cases short) [
              | inl y ↦
                  subst (IfReady l₀)
                    (sym (
                      if-true short (false, record l { bus = record l.bus { lookahead = 0 } }) _ y))
                    (λ wrong. absurd (ground arith))
              | inr m ↦
                  let some_left : l.bus.lookahead ≢ 0 = ground arith in
                  let header : htc_hdr_length ≤ l.bus.read_buffer_space = ground arith in
                  let whole : announced l.bus ≤ l.bus.read_buffer_space = ground arith in
                  let IsWhole : Bus _ → Type 0 = λ b.
                    (b.lookahead ≢ 0)
                    × (htc_hdr_length ≤ b.read_buffer_space)
                    × (announced b ≤ b.read_buffer_space) in
                  let (p, q, w) = subst IsWhole (sym same) (some_left, header, whole) in
                  subst (IfReady l₀)
                    (sym (
                      if-false short (false, record l { bus = record l.bus { lookahead = 0 } }) _
                        m))
                    (λ y. (idle, p, q, w, taken y))
            ])
    ]

-- Where the look-ahead, if it must be read, can be read: `Driver_RxReady` returns; where it
-- answers yes, there was no fatal error and no request on the bus or waiting for its completion,
-- the look-ahead is not zero, the bytes that can be read are at least a header's and at least the
-- length that the look-ahead announces, and there is a buffer to receive into.
pub rx_ready_lem :
    {D : Type 0} (hw : Custom D) (get_rx_req : ℕ → Option Netbuf) (l : Loop D)
    → Returns (λ _. Unit) (look hw (clear_packet hw l.bus).1)
    → Returns (IfReady l) (rx_ready hw get_rx_req l)
unfolding rx_ready
rx_ready_lem hw get_rx_req l looks =
    let (status, b) = clear_packet hw l.bus in
    let go = status == a_ok && l.enabled_spi_ints.pkt_avail in
    let on : Outcome (Bool × Loop _) =
      look hw b >>= λ b'. ran (judge hw get_rx_req (record l { bus = b' })) in
    let refuse : (m : Loop _) → IfReady l (false, m) = λ m wrong. absurd (ground arith) in
    elim (Bool-cases (can_receive l)) [
      | inl y ↦
          let idle : is_idle l.bus ≡ true = ground arith in
          subst (Returns (IfReady l)) (sym (if-true (can_receive l) _ (ran (false, l)) y))
            (elim (Bool-cases go) [
              | inl g ↦
                  subst (Returns (IfReady l))
                    (sym (if-true go on (ran (false, record l { bus = b })) g))
                    (Returns-bind (λ _. Unit) (IfReady l) (look hw b) _ looks
                      λ b' _. judge_lem hw get_rx_req l (record l { bus = b' }) idle)
              | inr g ↦
                  subst (Returns (IfReady l))
                    (sym (if-false go on (ran (false, record l { bus = b })) g))
                    (refuse (record l { bus = b }))
            ])
      | inr n ↦
          subst (Returns (IfReady l)) (sym (if-false (can_receive l) _ (ran (false, l)) n))
            (refuse l)
    ]
