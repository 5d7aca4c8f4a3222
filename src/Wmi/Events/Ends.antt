-- ===== src/Wmi/Events/Ends.antt =====
-- Where an event stops the driver, and what becomes of the others.
use atheros_wifi.Prelude.{
  refl, ◌>>=◌, IfHalts, IfHalts-bind, ℕ, ◌+◌, ◌-◌, ◌%◌, ◌^◌, ◌≤◌, ◌≡◌, sym, ap, ◌∙◌, inl, inr, true,
  false, not, arith, ltb, leb, ◌&&◌, Bool, if◌then◌else◌, Bool-cases, Outcome, ran, halted, Mem,
}
use mathlib.Core.Path.{subst}
use atheros_wifi.Netbuf.Buffer.{Netbuf}
use atheros_wifi.Netbuf.Buffer.Room.{IsBuffer, size_of}
use atheros_wifi.Htc.Frame.{get16}
use atheros_wifi.Wmi.Control.{
  Wmi, Heard, keeps_buffer, is_in, quiet_events, status_events, unknown, dispatch, control_rx,
}
use atheros_wifi.Wmi.Events.{
  own_events, is_refused, HandlerHalts, handled, dispatch-IfHalts, dispatch_plain, control_rx_lem,
}

-- The call halts if the test says so, and if not, it halts only where `P` holds.
abbrev pub HaltsBy : {A : Type 0} → Bool → Type 0 → Outcome A → Type 0
HaltsBy true P o = o ≡ halted
HaltsBy false P o = IfHalts P o

bind_assoc :
    {A B E : Type 0} (o : Outcome A) (k : A → Outcome B) (l : B → Outcome E)
    → ((o >>= k) >>= l) ≡ (o >>= λ a. k a >>= l)
bind_assoc (ran a) k l = refl
bind_assoc halted k l = refl

module _ {C : Type 0} (handler : (id device_id datap len : ℕ) → Mem → C → Outcome (ℕ × C)) where
  -- An event in one valid buffer stops the driver in `wmi_control_rx` if it has its header, and is
  -- too short for the table of least lengths or is WMI_CMDERROR_EVENTID with the code 4; any other
  -- event stops it only where a call of the handler of the event, or of the extension that it
  -- carries, does not return.
  pub control_rx-halted :
      (w : Wmi) (m : Mem) (c : C) (b : Netbuf)
      → IsBuffer b
      → b.num_frags ≡ 0
      → HaltsBy
          (leb 6 (size_of b) && is_refused m b.start (size_of b - 6))
          (HandlerHalts handler c
            (handled m (get16 m b.start) (b.start + 6))
            (get16 m (b.start + 2) % 2 ^ 4))
          (control_rx handler w m c b)
  control_rx-halted w m c b v e =
      let (short, bad, fine) = control_rx_lem handler w m c b v e in
      let id = get16 m b.start in
      let dev = get16 m (b.start + 2) % 2 ^ 4 in
      let P = HandlerHalts handler c (handled m id (b.start + 6)) dev in
      let b' = record b { start = b.start + 6 } in
      let refused = is_refused m b.start (size_of b - 6) in
      let go : Outcome (Bool × Heard C) → Type 0 =
        λ o. HaltsBy (leb 6 (size_of b) && refused) P o in
      elim (Bool-cases (ltb (size_of b) 6)) [
        | inl y ↦
            let few : leb 6 (size_of b) ≡ false = ground arith in
            subst go (sym (short (ground arith))) (rw few tt)
        | inr y ↦ elim (Bool-cases refused) [
          | inl r ↦
              let all : (leb 6 (size_of b) && refused) ≡ true = ground arith in
              rw all (bad (ground arith) r)
          | inr r ↦
              let (n', v', path) = fine (ground arith) r in
              let no : (leb 6 (size_of b) && refused) ≡ false = ground arith in
              rw no (
                subst (IfHalts P) (sym path) (
                  IfHalts-bind P (dispatch handler w m c id dev b') _
                    (dispatch-IfHalts handler w m c id dev b' v' (omega (arith, v)) e
                      (ground arith))
                    λ h. tt))
        ]
      ]

  -- An event in one valid buffer, with its header, that is not refused, is none of the four that
  -- the switch works on itself, and has no handler with a status: `wmi_control_rx` calls its
  -- handler with its payload and, if that returns, returns A_OK with what the handler did; if the
  -- event is not known, it counts it and returns A_ERROR. The buffer is freed unless the handler
  -- keeps it.
  pub control_rx-plain :
      (w : Wmi) (m : Mem) (c : C) (b : Netbuf)
      → IsBuffer b
      → b.num_frags ≡ 0
      → 6 ≤ size_of b
      → is_refused m b.start (size_of b - 6) ≡ false
      → is_in (get16 m b.start) own_events ≡ false
      → is_in (get16 m b.start) status_events ≡ false
      → let id = get16 m b.start in
        let dev = get16 m (b.start + 2) % 2 ^ 4 in
        control_rx handler w m c b ≡ (
          if is_in id quiet_events
          then (do
            (_, c') ← handler id dev (b.start + 6) (size_of b - 6) m c
            ran (not (keeps_buffer id), record { status = 0; wmi = w; mem = m; host = c' }))
          else ran (not (keeps_buffer id), unknown handler w m c))
  control_rx-plain w m c b v e h r other no_status =
      let id = get16 m b.start in
      let dev = get16 m (b.start + 2) % 2 ^ 4 in
      let b' = record b { start = b.start + 6 } in
      let (n', v', path) = (control_rx_lem handler w m c b v e).2 h r in
      path
      ∙ ap (λ o. o >>= λ x. ran (not (keeps_buffer id), x))
          (dispatch_plain handler w m c id dev b' other no_status)
      ∙ elim (Bool-cases (is_in id quiet_events)) [
        | inl y ↦
            rw (y, n')
              (bind_assoc (handler id dev (b.start + 6) (size_of b - 6) m c) _
                λ x. ran (not (keeps_buffer id), x))
        | inr y ↦ rw y refl
      ]
