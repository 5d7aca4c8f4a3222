-- ===== src/Packet/Send.antt =====
-- A data packet, from the network stack to the queue.
use atheros_wifi.Prelude.{
  ℕ, ◌+◌, ◌-◌, ◌*◌, ◌/◌, ◌%◌, ◌^◌, ◌≤◌, ◌≡◌, refl, sym, ap, ◌∙◌, Bool, true, false, ◌&&◌, ◌||◌,
  some, [], ◌∷◌, ◌++◌, arith, ◌==◌, if◌then◌else◌, if-false, get_or, Outcome, ran, ◌>>=◌, Returns,
  Returns-bind, Mem, load, store, load-store_above,
}
use mathlib.Core.Path.{ap₂, subst}
use atheros_wifi.Util.{ac2endpoint_id}
use atheros_wifi.Netbuf.Buffer.{Netbuf, tx_complete, push}
use atheros_wifi.Netbuf.Buffer.Room.{IsBuffer, size_of, push_lem}
use atheros_wifi.Netbuf.Buffer.Bytes.{content}
use atheros_wifi.Transmit.{Tx, prepared, submit_tx_request}
use atheros_wifi.Wmi.{data_hdr_add, implicit_create_pstream, up_to_ac}
use atheros_wifi.Wmi.Encap.{load-ext_from}
use atheros_wifi.Wmi.Headers.{
  IsHeaded, data_hdr_5, data_hdr_add_lem, priority_at, implicit_create_pstream_lem,
  load-store_second,
}
use atheros_wifi.Packet.{endpoint_unused, Net, with_epid, submit_to, data_tx_start}

-- A request in the queue that was handed over with this endpoint: six bytes are free in front.
abbrev pub IsQueued : Tx → Netbuf → ℕ → Tx → Type 0
IsQueued t req eid t' =
    (r : Netbuf) × (t'.tx_queue ≡ t.tx_queue ++ (r ∷ []))
    × (r.trans.epid ≡ eid)
    × (r.start + 6 ≡ req.start)
    × (r.tail ≡ req.tail)
    × (r.head ≡ req.head)

pub submitted :
    (t : Tx) (req : Netbuf) (eid : ℕ)
    → IsBuffer req
    → 6 ≤ req.start - req.head
    → Returns (IsQueued t req eid) (submit_tx_request t (with_epid req eid))
unfolding submit_tx_request
submitted t req eid v room =
    let w = record req { trans = record req.trans { epid = eid; cb = some tx_complete } } in
    let z : IsBuffer w = record {
      head_le = v.head_le;
      start_le = v.start_le;
      tail_le = v.tail_le;
      finish_lt = v.finish_lt;
    } in
    Returns-bind
      (λ b.
        (b.trans.epid ≡ eid)
        × (b.start + 6 ≡ req.start)
        × (b.tail ≡ req.tail)
        × (b.head ≡ req.head))
      (IsQueued t req eid) (prepared tx_complete t.htc (with_epid req eid)) _
      (Returns-bind _ _ (push w 6) _ (push_lem w 6 z room)
        λ c ((k, h, _, frags, trans), s, e). (ap (λ u. u.epid) trans, s, e, h))
      λ b (ep, s, e, h). (b, refl, ep, s, e, h)

-- What is in the queue after a packet with the priority: the data header behind six free bytes, the
-- meta data, and the packet as it was.
abbrev pub IsSent : Net → Netbuf → (priority eid : ℕ) → ℕ × Net → Type 0
IsSent n b priority eid (status, n') =
    (status ≡ 0)
    × ((r : Netbuf) × (n'.tx.tx_queue ≡ n.tx.tx_queue ++ (r ∷ []))
        × (r.trans.epid ≡ eid)
        × (r.head ≡ b.head)
        × (r.start + 24 ≡ b.start)
        × (r.tail ≡ b.tail)
        × (load n'.mem (r.start + 6) 6 ≡ data_hdr_5 priority)
        × (load n'.mem b.start (size_of b) ≡ content n.mem b))

headed-IsSent :
    (n : Net) (b c : Netbuf) (m : Mem) (eid : ℕ)
    → IsHeaded n.mem b (m, c)
    → 24 ≤ b.start - b.head
    → let p = priority_at n.mem b.start n.wmm_enabled in
      ac2endpoint_id n.mapping (get_or up_to_ac p 0) ≡ some eid
      → (eid == 0 || eid == endpoint_unused) ≡ false
      → Returns (IsSent n b p eid) (
          let (ac, m') = implicit_create_pstream m c 0 n.wmm_enabled in
          submit_to (record n { mem = m' }) c (ac2endpoint_id n.mapping ac))
headed-IsSent n b c m eid ((w, h, _, _, _), s, t, hdr, kept) room e used =
    let p = priority_at n.mem b.start n.wmm_enabled in
    let same_at : (i : ℕ) → m (b.start + i) ≡ n.mem (b.start + i) =
      λ i. kept (b.start + i) (omega arith) in
    let wide : priority_at m b.start n.wmm_enabled ≡ p =
      ap₂ (λ x y. if n.wmm_enabled && (x == 0x800) then y / 2 ^ 5 % 2 ^ 3 else 0)
        (ap₂ (λ x y. x * 2 ^ 8 + y) (same_at 20) (kept (b.start + 20 + 1) (omega arith)))
        (same_at 23) in
    let m' = store m (c.start + 1) (p * 2 ^ 2 ∷ []) in
    let go : ℕ × Mem → Outcome (ℕ × Net) =
      λ (ac, k). submit_to (record n { mem = k }) c (ac2endpoint_id n.mapping ac) in
    let path : go (implicit_create_pstream m c 0 n.wmm_enabled) ≡ go (get_or up_to_ac p 0, m') =
      ap go (
        implicit_create_pstream_lem m c b.start n.wmm_enabled hdr s
        ∙ ap (λ q. (get_or up_to_ac q 0, store m (c.start + 1) (q * 2 ^ 2 ∷ []))) wide) in
    let rest : Outcome (ℕ × Net) =
      submit_tx_request n.tx (with_epid c eid) >>= λ t'. ran (0, record n { mem = m'; tx = t' }) in
    let queued : Returns (IsSent n b p eid) rest =
      Returns-bind (IsQueued n.tx c eid) (IsSent n b p eid)
        (submit_tx_request n.tx (with_epid c eid)) _ (submitted n.tx c eid w (omega arith))
        λ t' (r, q, ep, s', e', h'). (
          refl,
          (
            r,
            q,
            ep,
            h' ∙ h,
            omega arith,
            e' ∙ t,
            ap (λ a. load m' a 6) s'
                ∙ load-store_second m c.start (p * 2 ^ 2) 0 0 (0 ∷ 0xA0 ∷ 0 ∷ 0 ∷ []) hdr,
            load-store_above m b.start (size_of b) (c.start + 1) (p * 2 ^ 2 ∷ []) (omega arith)
                ∙ load-ext_from m n.mem b.start (size_of b) kept,
          ),
        ) in
    let taken : go (get_or up_to_ac p 0, m') ≡ rest =
      ap (λ o. submit_to (record n { mem = m' }) c o) e
      ∙ if-false (eid == 0 || eid == endpoint_unused) (ran (2 ^ 32 - 1, record n { mem = m' })) rest
          used in
    subst (Returns (IsSent n b p eid)) (sym (path ∙ taken)) queued

-- With a connection, there or waited for, access to the driver, and WMI ready and enabled:
-- `Api_DataTxStart` of a valid buffer with 24 bytes of head room, where the table has an endpoint
-- in use for the access category, returns A_OK and puts one request behind the others in the
-- transmit queue. It is for that endpoint; behind six free bytes it has the data header, with the
-- priority that an IP packet's type of service asks for if the network has WMM and 0 otherwise,
-- then the meta data, and then the packet as it was.
pub data_tx_start_lem :
    (connects access : Bool) (n : Net) (b : Netbuf) (ip_meta eid : ℕ)
    → (n.is_connected || (n.is_connect_pending && connects)) ≡ true
    → (access && (n.wmi_ready && n.wmi_enabled)) ≡ true
    → IsBuffer b
    → 24 ≤ b.start - b.head
    → let p = priority_at n.mem b.start n.wmm_enabled in
      ac2endpoint_id n.mapping (get_or up_to_ac p 0) ≡ some eid
      → (eid == 0 || eid == endpoint_unused) ≡ false
      → Returns (IsSent n b p eid) (data_tx_start connects access n b ip_meta)
unfolding data_tx_start
data_tx_start_lem connects access n b ip_meta eid up way v room e used =
    let n' = record n { is_connected = n.is_connected || (n.is_connect_pending && connects) } in
    let p = priority_at n.mem b.start n.wmm_enabled in
    rw (up, way)
      (Returns-bind (IsHeaded n.mem b) (IsSent n b p eid) (data_hdr_add n.mem b 0 false 0 5 ip_meta)
        _ (data_hdr_add_lem n.mem b ip_meta v (omega arith))
        λ (m, c) headed.
          headed-IsSent (record n { is_connected = true }) b c m eid headed room e used)
