-- ===== src/Wmi/Commands.antt =====
-- A command, from its bytes to the queue.
use atheros_wifi.Prelude.{
  ℕ, ◌+◌, ◌-◌, ◌*◌, ◌%◌, ◌^◌, ◌≤◌, ◌<◌, ◌≡◌, refl, sym, ap, ◌∙◌, inl, inr, Bool, false, some, List,
  [], ◌∷◌, ◌++◌, arith, ◌==◌, if◌then◌else◌, Bool-cases, length, get_or, ran, Returns, Returns-mono,
  Returns-bind, Mem, load, store, length-load, load-store_self, load-store_above,
}
use mathlib.Core.Path.{ap₂, subst}
use atheros_wifi.Netbuf.Buffer.{Netbuf, zeroed, laid_out, alloc, push, put}
use atheros_wifi.Netbuf.Buffer.Room.{IsBuffer, size_of, Keeps, push_lem, put_lem}
use atheros_wifi.Netbuf.Buffer.Bytes.{content}
use atheros_wifi.Htc.Frame.{get16}
use atheros_wifi.Transmit.{Tx, submit_tx_request}
use atheros_wifi.Packet.{with_epid, wmi_tx_start}
use atheros_wifi.Packet.Send.{IsQueued, submitted}
use atheros_wifi.Wmi.Control.{Wmi, cmd_hdr, cmd_send, cmd_start}

-- The command in the queue: behind six free bytes, the number, the device, and the payload.
abbrev pub IsCommanded : Wmi → Tx → (cmd_id : ℕ) → (payload : List ℕ) → Mem → Tx → Type 0
IsCommanded w t cmd_id payload m' t' =
    (r : Netbuf) × (t'.tx_queue ≡ t.tx_queue ++ (r ∷ []))
    × (r.trans.epid ≡ w.endpoint_id)
    × (r.tail ≡ r.start + 12 + length payload)
    × (get16 m' (r.start + 6) ≡ cmd_id % 2 ^ 16)
    × (get16 m' (r.start + 8) % 2 ^ 4 ≡ w.device_id % 2 ^ 4)
    × (load m' (r.start + 12) (length payload) ≡ payload)

hdr_read :
    (m : Mem) (a cmd_id device_id : ℕ)
    → let m' = store m a (cmd_hdr m a cmd_id device_id) in
      (get16 m' a ≡ cmd_id % 2 ^ 16) × (get16 m' (a + 2) % 2 ^ 4 ≡ device_id % 2 ^ 4)
hdr_read m a cmd_id device_id =
    let bs = cmd_hdr m a cmd_id device_id in
    let m' = store m a bs in
    let all = load-store_self m a bs in
    let first : m' a ≡ get_or bs 0 0 = ap (λ l. get_or l 0 0) all in
    let second : m' (a + 1) ≡ get_or bs 1 0 = ap (λ l. get_or l 1 0) all in
    let third : m' (a + 2) ≡ get_or bs 2 0 = ap m' (omega arith) ∙ ap (λ l. get_or l 2 0) all in
    let fourth : m' (a + 2 + 1) ≡ get_or bs 3 0 =
      ap m' (omega arith) ∙ ap (λ l. get_or l 3 0) all in
    (
      ap₂ (λ x y. x + 2 ^ 8 * y) first second ∙ omega arith,
      ap₂ (λ x y. (x + 2 ^ 8 * y) % 2 ^ 4) third fourth ∙ omega arith,
    )

-- `wmi_cmd_send` of a payload in a valid buffer with the room for both headers, to a target with
-- no wait for synchronisation.
pub cmd_send_lem :
    (w : Wmi) (m : Mem) (t : Tx) (b : Netbuf) (cmd_id : ℕ)
    → IsBuffer b
    → 12 ≤ b.start - b.head
    → Returns
        (λ (s, _, m', t'). (s ≡ 0) × IsCommanded w t cmd_id (content m b) m' t')
        (cmd_send w m t b cmd_id 0)
unfolding cmd_send wmi_tx_start
cmd_send_lem w m t b cmd_id v room =
    let n = length-load m b.start (size_of b) in
    let Q : ℕ × Bool × Mem × Tx → Type 0 =
      λ (s, _, m', t'). (s ≡ 0) × IsCommanded w t cmd_id (content m b) m' t' in
    Returns-bind _ Q (push b 6) _ (push_lem b 6 v (omega arith)) λ c ((k, h, _, _, _), s, e).
      let bs = cmd_hdr m c.start cmd_id w.device_id in
      let m' = store m c.start bs in
      let (id, dev) = hdr_read m c.start cmd_id w.device_id in
      let same : load m' b.start (size_of b) ≡ content m b =
        load-store_above m b.start (size_of b) c.start bs (omega arith) in
      Returns-bind (λ (_, t'). IsQueued t c w.endpoint_id t') Q (wmi_tx_start t c w.endpoint_id)
        (λ (_, t'). ran (0, false, m', t'))
        (Returns-bind (IsQueued t c w.endpoint_id) (λ (_, t'). IsQueued t c w.endpoint_id t')
          (submit_tx_request t (with_epid c w.endpoint_id)) (λ t'. ran (0, t'))
          (submitted t c w.endpoint_id k (omega arith)) λ t' q. q)
        λ (_, t') (r, q, ep, s', e', h'). (
          refl,
          (
            r,
            q,
            ep,
            omega (arith, n),
            ap (λ a. get16 m' a) s' ∙ id,
            ap (λ a. get16 m' a % 2 ^ 4) (omega arith) ∙ dev,
            ap₂ (λ a i. load m' a i) (omega arith) n ∙ same,
          ),
        )

-- The bytes of a command that the buffer takes.
filled :
    (m : Mem) (b : Netbuf) (input size : ℕ)
    → IsBuffer b
    → size_of b ≡ 0
    → size ≤ b.finish - b.tail
    → Returns
        (λ c. Keeps b c × (c.start ≡ b.start) × (size_of c ≡ size))
        (if size == 0 then ran b else put b size)
filled m b input size v e room = elim (Bool-cases (size == 0)) [
  | inl none_of ↦ rw none_of ((v, refl, refl, refl, refl), refl, ground arith)
  | inr some_of ↦ rw some_of (
      Returns-mono (λ c. Keeps b c × (c.start ≡ b.start) × (size_of c ≡ size)) (put b size)
        (put_lem b size v room) λ c (k, t, s). (k, s, omega (arith, v)))
]

copied :
    (m : Mem) (a input size : ℕ)
    → load (if size == 0 then m else store m a (load m input size)) a size ≡ load m input size
copied m a input size = elim (Bool-cases (size == 0)) [
  | inl none_of ↦
      let z : size ≡ 0 = ground arith in
      ap (λ n. load (if size == 0 then m else store m a (load m input size)) a n) z
      ∙ sym (ap (λ n. load m input n) z)
  | inr some_of ↦ rw some_of (
      ap (λ n. load (store m a (load m input size)) a n) (sym (length-load m input size))
      ∙ load-store_self m a (load m input size))
]

-- Where A_MALLOC gives the memory, which with its 64 bytes of head room ends below 2 ^ 32:
-- `wmi_cmd_start` returns A_OK, and one request for the endpoint of WMI stands behind the others
-- in the transmit queue. Behind six free bytes it has the number of the command, the device and
-- two free bytes, and the bytes of the input.
pub cmd_start_lem :
    (w : Wmi) (m : Mem) (t : Tx) (obj base input cmd_id size : ℕ)
    → base + 64 + size < 2 ^ 32
    → Returns
        (λ (s, m', t'). (s ≡ 0) × IsCommanded w t cmd_id (load m input size) m' t')
        (cmd_start (some obj) (some base) w m t input cmd_id size)
unfolding cmd_start alloc
cmd_start_lem w m t obj base input cmd_id size fits =
    let b = laid_out zeroed base size in
    let v : IsBuffer b = record {
      head_le = omega arith;
      start_le = omega arith;
      tail_le = omega arith;
      finish_lt = omega arith;
    } in
    let Q : ℕ × Mem × Tx → Type 0 =
      λ (s, m', t'). (s ≡ 0) × IsCommanded w t cmd_id (load m input size) m' t' in
    Returns-bind _ Q (if size == 0 then ran b else put b size) _
      (filled m b input size v (omega arith) (omega arith))
      λ c ((k, h, _, _, _), s, n).
        let m' = if size == 0 then m else store m c.start (load m input size) in
        let same : content m' c ≡ load m input size =
          ap (λ i. load m' c.start i) n ∙ copied m c.start input size in
        Returns-bind (λ (s, _, m'', t'). (s ≡ 0) × IsCommanded w t cmd_id (content m' c) m'' t') Q
          (cmd_send w m' t c cmd_id 0) _ (cmd_send_lem w m' t c cmd_id k (omega arith))
          λ (status, f, m'', t') (ok, sent).
            (ok, subst (λ bs. IsCommanded w t cmd_id bs m'' t') same sent)
