-- ===== src/Wmi/Build/Queued.antt =====
-- The commands that are built reach the queue.
use atheros_wifi.Prelude.{
  ℕ, ◌+◌, ◌-◌, ◌%◌, ◌^◌, ◌≤◌, ◌<◌, ◌≡◌, sym, ap, ◌∙◌, Bool, true, ◌&&◌, not, some, List, ◌++◌,
  arith, leb, ◌==◌, length, Outcome, ◌>>=◌, assert, Returns, Returns-bind, Mem, load, store,
  load-store_self,
}
use mathlib.Core.Path.{subst}
use atheros_wifi.Netbuf.Buffer.{zeroed, laid_out, alloc, put}
use atheros_wifi.Netbuf.Buffer.Room.{IsBuffer, size_of, put_lem}
use atheros_wifi.Netbuf.Buffer.Bytes.{content}
use atheros_wifi.Transmit.{Tx}
use atheros_wifi.Wmi.{le32}
use atheros_wifi.Wmi.Encap.{load-store_front}
use atheros_wifi.Wmi.Control.{Wmi, cmd_send, cmd_start}
use atheros_wifi.Wmi.Commands.{IsCommanded, cmd_send_lem, cmd_start_lem}
use atheros_wifi.Wmi.Build.{built, socket_cmd}

built_lem :
    (w : Wmi) (m : Mem) (t : Tx) (obj base cmd_id : ℕ) (bytes : List ℕ)
    → base + 64 + length bytes < 2 ^ 32
    → Returns
        (λ (s, m', t'). (s ≡ 0) × IsCommanded w t cmd_id bytes m' t')
        (built (some obj) (some base) w m t cmd_id bytes)
unfolding alloc
built_lem w m t obj base cmd_id bytes fits =
    let b = laid_out zeroed base (length bytes) in
    let v : IsBuffer b = record {
      head_le = omega arith;
      start_le = omega arith;
      tail_le = omega arith;
      finish_lt = omega arith;
    } in
    let Q : ℕ × Mem × Tx → Type 0 = λ (s, m', t'). (s ≡ 0) × IsCommanded w t cmd_id bytes m' t' in
    Returns-bind _ Q (put b (length bytes)) _ (put_lem b (length bytes) v (omega arith))
      λ c ((k, h, _, _, _), e, s).
        let m' = store m c.start bytes in
        let n : size_of c ≡ length bytes = omega arith in
        let same : content m' c ≡ bytes =
          ap (λ i. load m' c.start i) n ∙ load-store_self m c.start bytes in
        Returns-bind (λ (s, _, m'', t'). (s ≡ 0) × IsCommanded w t cmd_id (content m' c) m'' t') Q
          (cmd_send w m' t c cmd_id 0) _ (cmd_send_lem w m' t c cmd_id k (omega arith))
          λ (status, f, m'', t') (ok, sent).
            (ok, subst (λ bs. IsCommanded w t cmd_id bs m'' t') same sent)

-- For data that is not NULL, of at least 8 and fewer than 2 ^ 16 bytes, where A_MALLOC gives the
-- memory, which with its 64 bytes of head room ends below 2 ^ 32: `wmi_socket_cmd` returns A_OK,
-- and the request for the socket stands behind the others in the transmit queue, with the type of
-- the command and the length of what follows in front of the rest of the data.
pub socket_cmd_lem :
    (w : Wmi) (m : Mem) (t : Tx) (obj base cmd_type p_data len : ℕ)
    → 0 < p_data
    → 8 ≤ len
    → len < 2 ^ 16
    → base + 64 + len < 2 ^ 32
    → Returns
        (λ (s, m', t').
          (s ≡ 0)
          × IsCommanded w t 0xF08D
              (le32 cmd_type ++ (le32 (len - 8) ++ load m (p_data + 8) (len - 8)))
              m'
              t')
        (socket_cmd (some obj) (some base) w m t cmd_type p_data len)
unfolding socket_cmd
socket_cmd_lem w m t obj base cmd_type p_data len there long short fits =
    let go : Bool → ℕ → Outcome (ℕ × Mem × Tx) = λ ok size. assert ok >>= λ _.
    cmd_start (some obj) (some base) w (store m p_data (le32 cmd_type ++ le32 (len - 8))) t p_data
      0xF08D size in
    let ok : (not (p_data == 0) && leb 8 len) ≡ true = ground arith in
    let cut : len % 2 ^ 16 ≡ len = omega arith in
    let m1 = store m p_data (le32 cmd_type ++ le32 (len - 8)) in
    let k : 8 + (len - 8) ≡ len = omega arith in
    let bytes = le32 cmd_type ++ (le32 (len - 8) ++ load m (p_data + 8) (len - 8)) in
    let same : load m1 p_data len ≡ bytes =
      ap (λ i. load m1 p_data i) (sym k)
      ∙ load-store_front m p_data (len - 8) (le32 cmd_type ++ le32 (len - 8)) in
    let Q : ℕ × Mem × Tx → Type 0 = λ (s, m', t'). (s ≡ 0) × IsCommanded w t 0xF08D bytes m' t' in
    subst (Returns Q) (sym (ap (λ o. go o (len % 2 ^ 16)) ok ∙ ap (go true) cut)) (
      subst (λ bs. Returns (λ (s, m', t'). (s ≡ 0) × IsCommanded w t 0xF08D bs m' t') (go true len))
        same (cmd_start_lem w m1 t obj base p_data 0xF08D len fits))
