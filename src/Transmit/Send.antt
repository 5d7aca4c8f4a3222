-- ===== src/Transmit/Send.antt =====
-- From the decision to send to the frame.
use atheros_wifi.Prelude.{
  ℕ, ◌+◌, ◌-◌, ◌%◌, ◌^◌, ◌<◌, ◌≡◌, refl, inl, inr, true, false, List, ◌∷◌, arith, ◌==◌, ==_refl,
  Bool-cases, Returns, Returns-mono, Mem,
}
use mathlib.Core.Path.{subst}
use atheros_wifi.Util.{get_endpoint}
use atheros_wifi.Netbuf.Buffer.{Netbuf}
use atheros_wifi.Htc.{Driver}
use atheros_wifi.Htc.Frame.{Status, ok, send_packet}
use atheros_wifi.Transmit.{Hcd, Tx, tx_ready}
use atheros_wifi.Transmit.Ready.{IsTx, Fit, CanSend, tx_ready_lem}

-- The packet went out, and once the protocol is started it cost its endpoint one credit.
abbrev pub Sent : Driver → ℕ → Status × Driver × Mem → Type 0
Sent d i (s, d', _) = (s ≡ ok) × (d.htc_start ≡ true → (d'.ep i).credits + 1 ≡ (d.ep i).credits)

send_one :
    (d : Driver) (m : Mem) (r : Netbuf)
    → (d.ep (get_endpoint r.trans.epid)).credits < 2 ^ 8
    → 0 < (d.ep (get_endpoint r.trans.epid)).credits
    → r.trans.credits ≡ 1
    → Returns (Sent d (get_endpoint r.trans.epid)) (send_packet d m r)
unfolding send_packet
send_one d m r lt left one =
    let i = get_endpoint r.trans.epid in
    let e = d.ep i in
    elim (Bool-cases d.htc_start) [
      | inl y ↦
          let nonzero : (e.credits == 0) ≡ false = ground arith in
          let spent : (e.credits + 2 ^ 8 - 1) % 2 ^ 8 + 1 ≡ e.credits = omega arith in
          rw (y, nonzero, one, ==_refl i) (refl, λ _. spent)
      | inr n ↦ rw n (refl, λ no. absurd (ground arith))
    ]

-- Where the bus answers, every endpoint is in range, every queued request has a callback and fits
-- one credit, and the first one carries one credit: if `Driver_TxReady` answers yes,
-- `Htc_SendPacket` of that request, on the endpoints that are left, returns without an error; once
-- the protocol is started this costs its endpoint exactly one credit.
pub ready_sends :
    (h : Hcd) (t : Tx) (m : Mem) (r : Netbuf) (rest : List Netbuf)
    → IsTx h t
    → Fit t.htc t.tx_queue
    → t.tx_queue ≡ r ∷ rest
    → r.trans.credits ≡ 1
    → Returns
        (λ (ready, t').
          ready ≡ true → Returns (Sent t'.htc (get_endpoint r.trans.epid)) (send_packet t'.htc m r))
        (tx_ready h t)
ready_sends h t m r rest w f e one =
    Returns-mono _ (tx_ready h t) (tx_ready_lem h t w f) λ (ready, t') (a, can_send) is.
      let can : CanSend t.htc t' (r ∷ rest) = subst (λ q. CanSend t.htc t' q) e (can_send is) in
      let (_, left, _) = can in
      let (v, _) = a (get_endpoint r.trans.epid) in send_one t'.htc m r (v.credits_lt) left one
