-- ===== src/Transmit/Submit.antt =====
-- Requests on their way into the queue.
use atheros_wifi.Prelude.{
  ℕ, ◌+◌, ◌-◌, ◌%◌, ◌^◌, ◌≤◌, ◌<◌, ◌≡◌, refl, ap, ◌∙◌, Bool, true, false, none, some, List, [], ◌∷◌,
  ◌++◌, arith, length, length-append, Returns, Returns-bind,
}
use atheros_wifi.Netbuf.Buffer.{Netbuf, Callback, Trans, tx_complete, ep0_tx_complete, to_len, push}
use atheros_wifi.Netbuf.Buffer.Room.{IsBuffer, size_of, push_lem}
use atheros_wifi.Htc.{Driver}
use atheros_wifi.Htc.Frame.{htc_hdr_length}
use atheros_wifi.Htc.Header.{to_len-size_of}
use atheros_wifi.Transmit.{
  Hcd, Tx, send_padded_len, credits_required, has_callback, prepared, submit_tx_request,
  submit_ep0_tx_request,
}
use atheros_wifi.Transmit.Purge.{HaveCallbacks}
use atheros_wifi.Transmit.Ready.{IsTx, Fit}

HaveCallbacks-snoc :
    (rs : List Netbuf) (r : Netbuf)
    → HaveCallbacks rs
    → has_callback r ≡ true
    → HaveCallbacks (rs ++ (r ∷ []))
HaveCallbacks-snoc [] r h c = (c, tt)
HaveCallbacks-snoc (x ∷ rs) r (h, t) c = (h, HaveCallbacks-snoc rs r t c)

Fit-snoc :
    (d : Driver) (rs : List Netbuf) (r : Netbuf)
    → Fit d rs
    → send_padded_len d (to_len r) ≤ d.credit_size
    → Fit d (rs ++ (r ∷ []))
Fit-snoc d [] r h c = (c, tt)
Fit-snoc d (x ∷ rs) r (h, t) c = (h, Fit-snoc d rs r t c)

-- A request that may go out: it has room for the header, and with it fits one credit.
abbrev pub CanSubmit : Driver → Netbuf → Type 0
CanSubmit d req =
    IsBuffer req
    × (req.num_frags ≡ 0)
    × (htc_hdr_length ≤ req.start - req.head)
    × (send_padded_len d (size_of req + htc_hdr_length) ≤ d.credit_size)

-- The request in the queue: one credit, a callback, and a length that fits.
abbrev pub IsPrepared : Driver → Netbuf → Netbuf → Type 0
IsPrepared d req b =
    IsBuffer b
    × (b.trans.credits ≡ 1)
    × (b.trans.epid ≡ req.trans.epid)
    × (has_callback b ≡ true)
    × (send_padded_len d (to_len b) ≤ d.credit_size)

one_credit : (n c : ℕ) → n ≤ c → credits_required n c % 2 ^ 8 ≡ 1
unfolding credits_required
one_credit n c h = ground arith

to_len-trans : (c : Netbuf) (u : Trans) → to_len (record c { trans = u }) ≡ to_len c
unfolding to_len
to_len-trans c u = refl

abbrev has_cb : Trans → Bool
has_cb u = elim u.cb [ some _ ↦ true | none ↦ false ]

prepared_lem :
    (cb : Callback) (d : Driver) (req : Netbuf)
    → CanSubmit d req
    → Returns (IsPrepared d req) (prepared cb d req)
prepared_lem cb d req (v, one, room, fit) =
    let w = record req { trans = record req.trans { cb = some cb } } in
    Returns-bind _ (IsPrepared d req) (push w htc_hdr_length) _
      (push_lem w htc_hdr_length
        (record {
          head_le = v.head_le;
          start_le = v.start_le;
          tail_le = v.tail_le;
          finish_lt = v.finish_lt;
        })
        room)
      λ c ((k, _, _, frags, trans), s, t).
        let len : to_len c ≡ size_of req + htc_hdr_length =
          to_len-size_of c k (frags ∙ one) ∙ longer c s t in
        let fits : send_padded_len d (to_len c) ≤ d.credit_size = rw len fit in
        (
          record {
            head_le = k.head_le;
            start_le = k.start_le;
            tail_le = k.tail_le;
            finish_lt = k.finish_lt;
          },
          one_credit _ d.credit_size fits,
          ap (λ u. u.epid) trans,
          ap has_cb trans,
          rw (to_len-trans c _) fits,
        )
  where
    longer :
        (c : Netbuf)
        → c.start + htc_hdr_length ≡ req.start
        → c.tail ≡ req.tail
        → size_of c ≡ size_of req + htc_hdr_length
    longer c s t = omega (arith, v)

-- A valid buffer without fragments, with room for the header, that fits one credit with it, is
-- taken by both submit functions as long as the queue's count does not overflow: one puts it at
-- the back and the other in front. It has one credit, a callback and the endpoint that it had, and
-- the queue keeps what `Driver_TxReady` relies on.
pub submit_lem :
    (h : Hcd) (t : Tx) (req : Netbuf)
    → IsTx h t
    → Fit t.htc t.tx_queue
    → length t.tx_queue + 1 < 2 ^ 16
    → CanSubmit t.htc req
    → Returns
        (λ t'.
          IsTx h t'
          × Fit t'.htc t'.tx_queue
          × ((b : Netbuf) × IsPrepared t.htc req b × (t'.tx_queue ≡ t.tx_queue ++ (b ∷ []))))
        (submit_tx_request t req)
      × Returns
          (λ t'.
            IsTx h t'
            × Fit t'.htc t'.tx_queue
            × ((b : Netbuf) × IsPrepared t.htc req b × (t'.tx_queue ≡ b ∷ t.tx_queue)))
          (submit_ep0_tx_request t req)
unfolding submit_tx_request submit_ep0_tx_request
submit_lem h t req (v, p, l, c) f short ok = (
  Returns-bind (IsPrepared t.htc req) _ (prepared tx_complete t.htc req) _
      (prepared_lem tx_complete t.htc req ok)
      λ b (i, one, ep, cb, fit). (
        (
          v,
          p,
          omega (arith, length-append t.tx_queue (b ∷ [])),
          HaveCallbacks-snoc t.tx_queue b c cb,
        ),
        Fit-snoc t.htc t.tx_queue b f fit,
        (b, (i, one, ep, cb, fit), refl),
      ),
  Returns-bind (IsPrepared t.htc req) _ (prepared ep0_tx_complete t.htc req) _
      (prepared_lem ep0_tx_complete t.htc req ok)
      λ b (i, one, ep, cb, fit).
        ((v, p, omega arith, (cb, c)), (fit, f), (b, (i, one, ep, cb, fit), refl)),
)
