-- ===== src/Wmi/Events.antt =====
-- What becomes of an event of the target.
pub mod Ends
use atheros_wifi.Prelude.{
  ◌↔◌, ◌≢◌, sub32, ℕ, ◌+◌, ◌-◌, ◌*◌, ◌/◌, ◌%◌, ◌^◌, ◌≤◌, ◌<◌, ◌≡◌, refl, sym, ap, ◌∙◌, inl, inr,
  Bool, true, false, ◌||◌, ◌&&◌, not, List, [], ◌∷◌, ◌++◌, arith, ltb, leb, ◌==◌, if◌then◌else◌,
  if-true, if-false, Bool-cases, Outcome, ran, halted, ◌>>=◌, ◌>>◌, assert, Returns, Returns-bind,
  Returns-mono, IfHalts, IfHalts-bind, Returns→IfHalts, Mem, store, le→ltb,
}
use mathlib.Core.Bool.{false≢true}
use mathlib.Core.Path.{ap₂, subst}
use atheros_wifi.Netbuf.Buffer.{Netbuf, to_len, push, pull}
use atheros_wifi.Netbuf.Buffer.Room.{IsBuffer, size_of, Keeps, push_lem, pull_lem}
use atheros_wifi.Netbuf.Buffer.Fragments.{to_len-single}
use atheros_wifi.Htc.Frame.{get16, get32}
use atheros_wifi.Packet.{a_error}
use atheros_wifi.Wmi.Control.{
  Wmi, Heard, length_array, test_ev_length, keeps_buffer, is_in, quiet_events, status_events,
  extended_events, bss_info_hdr, with_status, quiet, unknown, bss_info, control_rx_xtnd, dispatch,
  control_rx,
}

-- The event at `a`, with `len` bytes behind its header: too short for the table, or
-- WMI_CMDERROR_EVENTID with the code 4.
abbrev pub is_refused : Mem → (a len : ℕ) → Bool
is_refused m a len =
    let id = get16 m a in
    not (test_ev_length length_array id len) || (id == 0x1005 && m (a + 6 + 2) == 4)

-- The four events that the switch works on itself.
abbrev pub own_events : List ℕ
own_events = 0x1004 ∷ 0x101B ∷ 0x1005 ∷ 0x1010 ∷ []

pub halts_not : {A : Type 0} (P : A → Type 0) (o : Outcome A) → Returns P o → o ≢ halted
halts_not P o r e = subst (Returns P) e r

-- The number by which the handler of an event is found: that of the extension, with its own header
-- at `p`, if it is one.
abbrev pub handled : Mem → (id p : ℕ) → ℕ
handled m id p = if id == 0x1010 then get32 m p % 2 ^ 16 else id

module _ {C : Type 0} (handler : (id device_id datap len : ℕ) → Mem → C → Outcome (ℕ × C)) where
  -- A call of the handler that does not return.
  abbrev pub HandlerHalts : C → (id device_id : ℕ) → Type 0
  HandlerHalts c id dev = (p len : ℕ) × (m' : Mem) × (handler id dev p len m' c ≡ halted)

  called :
      {A : Type 0} (c : C) (id dev p len : ℕ) (m' : Mem) (k : ℕ × C → A)
      → IfHalts (HandlerHalts c id dev) (handler id dev p len m' c >>= λ u. ran (k u))
  called c id dev p len m' k = go (handler id dev p len m' c) refl
    where
      go :
          (o : Outcome (ℕ × C))
          → handler id dev p len m' c ≡ o
          → IfHalts (HandlerHalts c id dev) (o >>= λ u. ran (k u))
      go (ran u) e = tt
      go halted e = (p, len, m', e)

  if-IfHalts :
      {A : Type 0} (P : Type 0) (t : Bool) (o u : Outcome A)
      → IfHalts P o
      → IfHalts P u
      → IfHalts P (if t then o else u)
  if-IfHalts P true o u x y = x
  if-IfHalts P false o u x y = y

  bss_info-IfHalts :
      (w : Wmi) (m : Mem) (c : C) (id dev : ℕ) (b : Netbuf)
      → IsBuffer b
      → 4 ≤ b.start - b.head
      → IfHalts (HandlerHalts c id dev) (bss_info handler w m c id dev b)
  bss_info-IfHalts w m c id dev b v room =
      IfHalts-bind (HandlerHalts c id dev) (push b 4) _
        (Returns→IfHalts _ _ (push b 4) (push_lem b 4 v room))
        λ b'. if-IfHalts _ (leb (m (b.start + 3)) 95) _ _ (called c id dev _ _ _ _) tt

  control_rx_xtnd-IfHalts :
      (w : Wmi) (m : Mem) (c : C) (dev : ℕ) (b : Netbuf)
      → IsBuffer b
      → b.num_frags ≡ 0
      → IfHalts
          (HandlerHalts c (get32 m b.start % 2 ^ 16) dev)
          (control_rx_xtnd handler w m c dev b)
  unfolding control_rx_xtnd
  control_rx_xtnd-IfHalts w m c dev b v e =
      let id = get32 m b.start % 2 ^ 16 in
      elim (Bool-cases (ltb (to_len b) 4)) [
        | inl short ↦ rw short tt
        | inr long ↦ rw long (
            IfHalts-bind (HandlerHalts c id dev) (pull b 4) _
              (Returns→IfHalts _ _ (pull b 4)
                (pull_lem b 4 v (let n = to_len-single b v e in ground arith)))
              λ b'. if-IfHalts _ (is_in id extended_events) _ _ (called c id dev _ _ _ _) tt)
      ]

  -- Behind its test, the switch halts only in a handler.
  pub dispatch-IfHalts :
      (w : Wmi) (m : Mem) (c : C) (id dev : ℕ) (b : Netbuf)
      → IsBuffer b
      → 4 ≤ b.start - b.head
      → b.num_frags ≡ 0
      → (id == 0x1005 && m (b.start + 2) == 4) ≡ false
      → IfHalts (HandlerHalts c (handled m id b.start) dev) (dispatch handler w m c id dev b)
  unfolding dispatch
  dispatch-IfHalts w m c id dev b v room e ok = elim (Bool-cases (id == 0x1010)) [
    | inl i4 ↦
        let same : id ≡ 0x1010 = ground arith in
        let o1 : (id == 0x1004) ≡ false = ap (λ i. i == 0x1004) same in
        let o2 : (id == 0x101B) ≡ false = ap (λ i. i == 0x101B) same in
        let o3 : (id == 0x1005) ≡ false = ap (λ i. i == 0x1005) same in
        rw (o1, o2, o3, i4) (control_rx_xtnd-IfHalts w m c dev b v e)
    | inr o4 ↦ elim (Bool-cases (id == 0x1005)) [
      | inl i3 ↦
          let fine : (m (b.start + 2) == 4) ≡ false = ground arith in
          let same : id ≡ 0x1005 = ground arith in
          let o1 : (id == 0x1004) ≡ false = ap (λ i. i == 0x1004) same in
          let o2 : (id == 0x101B) ≡ false = ap (λ i. i == 0x101B) same in
          rw (o1, o2, i3, o4, fine) tt
      | inr o3 ↦
          rw (o3, o4)
            (if-IfHalts _ (id == 0x1004) _ _ (bss_info-IfHalts w m c id dev b v room) (
              if-IfHalts _ (id == 0x101B) _ _
                (if-IfHalts _ (m b.start == 0) _ _ (called c id dev _ _ _ _) tt)
                (if-IfHalts _ (is_in id quiet_events) _ _ (called c id dev _ _ _ _)
                  (if-IfHalts _ (is_in id status_events) _ _ (called c id dev _ _ _ _) tt))))
    ]
  ]

  -- An event that the switch does not work on itself, and whose handler has no status.
  pub dispatch_plain :
      (w : Wmi) (m : Mem) (c : C) (id dev : ℕ) (b : Netbuf)
      → is_in id own_events ≡ false
      → is_in id status_events ≡ false
      → dispatch handler w m c id dev b ≡ (
          if is_in id quiet_events
          then quiet handler w m c id dev b.start (to_len b)
          else ran (unknown handler w m c))
  unfolding dispatch
  dispatch_plain w m c id dev b other s =
      let o1 : (id == 0x1004) ≡ false = ground arith in
      let o2 : (id == 0x101B) ≡ false = ground arith in
      let o3 : (id == 0x1005) ≡ false = ground arith in
      let o4 : (id == 0x1010) ≡ false = ground arith in rw (o1, o2, o3, o4, s) refl

  error_halts :
      (w : Wmi) (m : Mem) (c : C) (id dev : ℕ) (b : Netbuf)
      → (id == 0x1005) ≡ true
      → (m (b.start + 2) == 4) ≡ true
      → dispatch handler w m c id dev b ≡ halted
  unfolding dispatch
  error_halts w m c id dev b e f =
      let same : id ≡ 0x1005 = ground arith in
      let o1 : (id == 0x1004) ≡ false = ap (λ i. i == 0x1004) same in
      let o2 : (id == 0x101B) ≡ false = ap (λ i. i == 0x101B) same in rw (o1, o2, e, f) refl

  -- What `wmi_control_rx` does behind its test of the length.
  abbrev behind : Wmi → Mem → C → (id dev : ℕ) → Netbuf → Outcome (Bool × Heard C)
  behind w m c id dev b' = assert (test_ev_length length_array id (to_len b')) >>= λ _.
      dispatch handler w m c id dev b' >>= λ heard. ran (not (keeps_buffer id), heard)

  behind_lem :
      (w : Wmi) (m : Mem) (c : C) (b : Netbuf)
      → IsBuffer b
      → b.num_frags ≡ 0
      → 6 ≤ size_of b
      → let b' = record b { start = b.start + 6 } in
        (to_len b' ≡ size_of b - 6)
        × IsBuffer b'
        × (control_rx handler w m c b
            ≡ behind w m c (get16 m b.start) (get16 m (b.start + 2) % 2 ^ 4) b')
  unfolding control_rx pull
  behind_lem w m c b v e h =
      let b' = record b { start = b.start + 6 } in
      let v' : IsBuffer b' = record {
        head_le = omega (arith, v);
        start_le = omega (arith, v);
        tail_le = v.tail_le;
        finish_lt = v.finish_lt;
      } in
      let n = to_len-single b v e in
      let n' : to_len b' ≡ size_of b - 6 = to_len-single b' v' e ∙ omega arith in
      (
        n',
        v',
        rw (n, le→ltb (size_of b) 6 h, le→ltb (sub32 b.tail b.start) 6 (omega (arith, v)))
            (ap
              (λ a.
                behind w m c (get16 m b.start) (get16 m (b.start + 2) % 2 ^ 4)
                  (record b { start = a }))
              (omega (arith, v))),
      )

  -- `wmi_control_rx`
  pub control_rx_lem :
      (w : Wmi) (m : Mem) (c : C) (b : Netbuf)
      → IsBuffer b
      → b.num_frags ≡ 0
      → let id = get16 m b.start in
        let dev = get16 m (b.start + 2) % 2 ^ 4 in
        let b' = record b { start = b.start + 6 } in
        (size_of b < 6
          → control_rx handler w m c b
            ≡ ran (
              true,
              record {
                status = a_error;
                wmi = record w { cmd_len_err = w.cmd_len_err + 1 };
                mem = m;
                host = c;
              },
            ))
        × (6 ≤ size_of b
            → is_refused m b.start (size_of b - 6) ≡ true
            → control_rx handler w m c b ≡ halted)
        × (6 ≤ size_of b
            → is_refused m b.start (size_of b - 6) ≡ false
            → (to_len b' ≡ size_of b - 6)
              × IsBuffer b'
              × (control_rx handler w m c b
                  ≡ (dispatch handler w m c id dev b' >>= λ h. ran (not (keeps_buffer id), h))))
  unfolding control_rx
  control_rx_lem w m c b v e =
      let n = to_len-single b v e in
      let id = get16 m b.start in
      let dev = get16 m (b.start + 2) % 2 ^ 4 in
      let b' = record b { start = b.start + 6 } in
      let len = size_of b - 6 in
      (
        (λ h. rw n (ground arith)),
        (λ h r.
            let (n', v', path) = behind_lem w m c b v e h in
            path ∙ elim (Bool-cases (test_ev_length length_array id len)) [
              | inl ok ↦
                  let is_error : (id == 0x1005) ≡ true = ground arith in
                  let code : (m (b.start + 6 + 2) == 4) ≡ true = ground arith in
                  rw (n', ok, error_halts w m c id dev b' is_error code) refl
              | inr bad ↦ rw (n', bad) refl
            ]),
        (λ h r.
            let (n', v', path) = behind_lem w m c b v e h in
            let ok : test_ev_length length_array id (to_len b') ≡ true = rw n' (ground arith) in
            (n', v', path ∙ rw ok refl)),
      )
