-- ===== src/Packet/Receive/Deliver.antt =====
-- What a packet from the target brings to the network stack.
use atheros_wifi.Prelude.{
  ◌↔◌, IfReturns, Returns→IfReturns, min, ℕ, ◌+◌, ◌%◌, ◌^◌, ◌≤◌, ◌<◌, ◌≡◌, refl, sym, ◌⊎◌, inl, inr,
  Bool, true, false, ◌||◌, ◌&&◌, not, [], ◌∷◌, ◌++◌, arith, ltb, leb, ◌==◌, Bool-cases, drop,
  Outcome, ran, halted, ◌>>=◌, Returns, Returns-bind, Returns-mono, Mem,
}
use mathlib.Core.Path.{subst}
use atheros_wifi.Netbuf.Buffer.{Netbuf, to_len, pull}
use atheros_wifi.Netbuf.Buffer.Room.{IsBuffer, size_of}
use atheros_wifi.Netbuf.Buffer.Bytes.{content, pull-content}
use atheros_wifi.Netbuf.Buffer.Fragments.{to_len-single}
use atheros_wifi.Htc.Frame.{get16}
use atheros_wifi.Wmi.{get_meta, data_hdr_remove}
use atheros_wifi.Packet.Receive.{
  Rx, raised, average, get_data_type, is_amsdu, release, data_rx, rx_complete,
}
use atheros_wifi.Wmi.Events.{halts_not}

-- The average of a signal that is there and a new one, both bytes, lies on the scale of signed
-- bytes between the two.
average-between :
    (old new : ℕ)
    → 0 < old
    → old < 2 ^ 8
    → new < 2 ^ 8
    → (min (raised old) (raised new) ≤ raised (average old new))
      × ((raised (average old new) ≤ raised old) ⊎ (raised (average old new) ≤ raised new))
unfolding average
average-between old new p h k = ground arith

-- A header with no meta data, of an 802.3 frame that is no A-MSDU.
abbrev pub is_plain : Mem → ℕ → Bool
is_plain m a =
    get_meta m a == 0
    && (not (get_data_type m a == 1) && (not (is_amsdu m a) && not (get_data_type m a == 2)))

-- The packet without its header.
stripped :
    {C : Type 0} (Q : Rx C → Type 0) (m : Mem) (b : Netbuf) (k : Netbuf → Outcome (Rx C))
    → IsBuffer b
    → 6 ≤ size_of b
    → ((c : Netbuf) → content m c ≡ drop 6 (content m b) → Returns Q (k c))
    → Returns Q (data_hdr_remove b >>= k)
unfolding data_hdr_remove
stripped Q m b k v h rest =
    Returns-bind (λ c. content m c ≡ drop 6 (content m b)) Q (pull b 6) k (pull-content m b v 6 h)
      rest

bind-halted :
    {A B : Type 0} (o : Outcome A) (k : A → Outcome B)
    → ((a : A) → k a ≡ halted)
    → (o >>= k) ≡ halted
bind-halted (ran a) k h = h a
bind-halted halted k h = refl

refused :
    (m : Mem) (b : Netbuf)
    → (size_of b < 6) ⊎ (1664 < size_of b)
    → (ltb (size_of b) 6 || ltb 1664 (size_of b)) ≡ true
refused m b h = ground arith

-- A packet that reaches the network stack, and the state with it.
abbrev pub IsDelivered : {C : Type 0} → Rx C → Netbuf → Rx C → Type 0
IsDelivered r b r' =
    (c : Netbuf) × (content r.mem c ≡ drop 6 (content r.mem b))
    × (r' ≡ record r { rssi = average r.rssi (r.mem b.start); delivered = r.delivered ++ (c ∷ []) })

data_rx_lem :
    {C : Type 0} (r : Rx C) (b : Netbuf)
    → IsBuffer b
    → b.num_frags ≡ 0
    → size_of b < 2 ^ 16
    → r.is_ap (get16 r.mem (b.start + 4) % 2 ^ 4) ≡ false
    → ((size_of b < 6) ⊎ (1664 < size_of b) → data_rx r b ≡ ran (release r b))
      × (6 ≤ size_of b
          → size_of b ≤ 1664
          → (is_plain r.mem b.start ≡ true → Returns (IsDelivered r b) (data_rx r b))
            × (is_plain r.mem b.start ≡ false → data_rx r b ≡ halted))
unfolding data_rx
data_rx_lem {C} r b v e small station =
    let n = to_len-single b v e in
    let cut : size_of b % 2 ^ 16 ≡ size_of b = omega arith in
    (
      (λ h. rw (n, cut, station) (rw (refused r.mem b h) refl)),
      (λ h k.
          let fits : (not (r.is_ap (get16 r.mem (b.start + 4) % 2 ^ 4)) && ltb (to_len b % 2 ^ 16) 6
                || ltb 1664 (to_len b % 2 ^ 16))
              ≡ false =
            rw (n, cut, station) (ground arith) in
          (
            (λ p.
                let none_of : (get_meta r.mem b.start == 0) ≡ true = ground arith in
                let ethernet : (get_data_type r.mem b.start == 1) ≡ false = ground arith in
                let single : (not (is_amsdu r.mem b.start)
                      && not (get_data_type r.mem b.start == 2))
                    ≡ true =
                  ground arith in
                rw (fits, none_of, ethernet, single)
                  (stripped (IsDelivered r b) r.mem b _ v h λ c same. (c, same, refl))),
            (λ p. rw fits (bind-halted (data_hdr_remove b) _ λ c. ground (arith, p))),
          )),
    )

-- A length between those of a header and of a whole buffer.
abbrev pub fits : Netbuf → Bool
fits b = leb 6 (size_of b) && leb (size_of b) 1664

-- What becomes of a data packet of a station: it halts the driver, goes to the network stack, or is
-- freed.
abbrev pub IsReceived : {C : Type 0} → Rx C → Netbuf → Outcome (Rx C) → Type 0
IsReceived r b o =
    ((o ≡ halted) ↔ ((fits b && not (is_plain r.mem b.start)) ≡ true))
    × IfReturns
        (λ r'. ((fits b ≡ true) × IsDelivered r b r') ⊎ ((fits b ≡ false) × (r' ≡ release r b))) o

received :
    {C : Type 0} (r : Rx C) (b : Netbuf) (o : Outcome (Rx C))
    → ((size_of b < 6) ⊎ (1664 < size_of b) → o ≡ ran (release r b))
    → (6 ≤ size_of b
        → size_of b ≤ 1664
        → (is_plain r.mem b.start ≡ true → Returns (IsDelivered r b) o)
          × (is_plain r.mem b.start ≡ false → o ≡ halted))
    → IsReceived r b o
received r b o bad good =
    let Q : Rx _ → Type 0 =
      λ r'. ((fits b ≡ true) × IsDelivered r b r') ⊎ ((fits b ≡ false) × (r' ≡ release r b)) in
    elim (Bool-cases (fits b)) [
      | inl y ↦ elim (Bool-cases (is_plain r.mem b.start)) [
        | inl p ↦
            let back = (good (ground arith) (ground arith)).0 p in
            (
              (
                (λ stop. absurd (halts_not (IsDelivered r b) o back stop)),
                λ no_. absurd (ground (arith, p)),
              ),
              Returns→IfReturns Q o (Returns-mono Q o back λ r' is. inl (y, is)),
            )
        | inr n ↦
            let stop = (good (ground arith) (ground arith)).1 n in
            (((λ _. ground (arith, y, n)), λ _. stop), subst (IfReturns Q) (sym stop) tt)
      ]
      | inr y ↦
          let back = bad (ground arith) in
          (
            (
              (λ stop.
                  absurd
                    (halts_not (λ _. Unit) o (subst (Returns (λ _. Unit)) (sym back) tt) stop)),
              λ yes_. absurd (ground (arith, y)),
            ),
            subst (IfReturns Q) (sym back) (inr (y, refl)),
          )
    ]

module _ {C : Type 0} (handler : (id device_id datap len : ℕ) → Mem → C → Outcome (ℕ × C)) where
  -- With WMI enabled and no promiscuous mode, a packet of a station in one valid buffer of fewer
  -- than 2 ^ 16 bytes, of another endpoint than 1: `Api_RxComplete` halts the driver exactly if
  -- the packet has 6 to 1664 bytes and its header has meta data, or is of an 802.11 frame, ACL
  -- data or an A-MSDU. If it returns, a packet of such a length was delivered without its header
  -- and with the average of the signal updated, and any other packet was freed and nothing else
  -- changed.
  pub rx_complete_lem :
      (r : Rx C) (b : Netbuf)
      → IsBuffer b
      → b.num_frags ≡ 0
      → size_of b < 2 ^ 16
      → r.wmi_enabled ≡ true
      → (b.trans.epid == 1) ≡ false
      → r.promiscuous_mode ≡ false
      → r.is_ap (get16 r.mem (b.start + 4) % 2 ^ 4) ≡ false
      → IsReceived r b (rx_complete handler r b)
  unfolding rx_complete
  rx_complete_lem r b v e small on other plain station =
      let path : rx_complete handler r b ≡ data_rx r b = rw (on, other, plain) refl in
      let (bad, good) = data_rx_lem r b v e small station in
      subst (IsReceived r b) (sym path) (received r b (data_rx r b) bad good)
