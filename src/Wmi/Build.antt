-- ===== src/Wmi/Build.antt =====
-- common_src/wmi/wmi.c: commands that are put together in the buffer or on the stack.
pub mod Queued
use atheros_wifi.Prelude.{
  ℕ, ◌+◌, ◌-◌, ◌*◌, ◌%◌, ◌^◌, ◌≤◌, ◌<◌, ◌≡◌, refl, sym, ap, ◌∙◌, Bool, true, false, ◌&&◌, not,
  Option, none, some, List, [], ◌∷◌, ◌++◌, arith, leb, ◌==◌, length, Outcome, ran, ◌>>=◌, ◌>>◌,
  assert, Returns, Returns-bind, Mem, load, store,
}
use atheros_wifi.Netbuf.Buffer.{Netbuf, Frag, alloc, put, append_fragment}
use atheros_wifi.Transmit.{Tx}
use atheros_wifi.Wmi.{a_no_memory, le32}
use atheros_wifi.Wmi.Control.{Wmi, cmd_send, cmd_start}

-- A command that is built in its own buffer, from its bytes.
abbrev pub built :
    (obj memory : Option ℕ) → Wmi → Mem → Tx → (cmd_id : ℕ) → List ℕ → Outcome (ℕ × Mem × Tx)
built obj memory w m t cmd_id bytes = elim (alloc obj memory (length bytes)) [
  | none ↦ ran (a_no_memory, m, t)
  | some b ↦ (do
    b' ← put b (length bytes)
    (status, _, m', t') ← cmd_send w (store m b'.start bytes) t b' cmd_id 0
    ran (status, m', t'))
]

module _ (obj memory : Option ℕ) (w : Wmi) (m : Mem) (t : Tx) where
  -- `wmi_storerecall_recall_cmd`: the `len` bytes at `p_data` become a fragment of the buffer.
  unfoldable pub storerecall_recall_cmd : (len p_data : ℕ) → Outcome (ℕ × Mem × Tx)
  storerecall_recall_cmd len p_data = elim (alloc obj memory 4) [
    | none ↦ ran (a_no_memory, m, t)
    | some b ↦ (do
      b' ← put b 4
      let m' = store m b'.start (le32 len)
      b'' ← append_fragment b' (record { length = len; payload = p_data })
      (status, _, m'', t') ← cmd_send w m' t b'' 0xF05F 0
      ran (status, m'', t'))
  ]

  -- `wmi_bssfilter_cmd`: its structure on the stack has three bytes that are not set.
  unfoldable pub bssfilter_cmd : (stack filter ie_mask : ℕ) → Outcome (ℕ × Mem × Tx)
  bssfilter_cmd stack filter ie_mask =
      cmd_start obj memory w (store (store m stack (filter ∷ [])) (stack + 4) (le32 ie_mask)) t
        stack 9 8

  -- `wmi_socket_cmd` of the `len` bytes at `p_data`, 0 for NULL; `wmi_cmd_start` takes 16 bits of it.
  pub socket_cmd : (cmd_type p_data len : ℕ) → Outcome (ℕ × Mem × Tx)
  socket_cmd cmd_type p_data len = do
    assert (not (p_data == 0) && leb 8 len)
    cmd_start obj memory w (store m p_data (le32 cmd_type ++ le32 (len - 8))) t p_data 0xF08D
        (len % 2 ^ 16)

  -- `wmi_set_appie_cmd`
  unfoldable pub set_appie_cmd : (mgmt_frm_type ie_len ie_info : ℕ) → Outcome (ℕ × Mem × Tx)
  set_appie_cmd mgmt_frm_type ie_len ie_info =
      built obj memory w m t 0x3F (mgmt_frm_type ∷ ie_len ∷ load m ie_info ie_len)

  -- `wmi_p2p_set_oppps`
  unfoldable pub p2p_set_oppps : (enable ctwin : ℕ) → Outcome (ℕ × Mem × Tx)
  p2p_set_oppps enable ctwin = built obj memory w m t 0xF0AB (enable ∷ ctwin ∷ [])

  -- `wmi_p2p_set_noa`: descriptors of thirteen bytes follow the two of the header at `noa`.
  unfoldable pub p2p_set_noa : (noa : ℕ) → Outcome (ℕ × Mem × Tx)
  p2p_set_noa noa =
      built obj memory w m t 0xF0A9 (m noa ∷ m (noa + 1) ∷ load m (noa + 2) (m (noa + 1) * 13))
