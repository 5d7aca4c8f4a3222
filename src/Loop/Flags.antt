-- ===== src/Loop/Flags.antt =====
-- The request that the bus layer works on, over all orders of events.
use atheros_wifi.Prelude.{
  ℕ, ◌≡◌, refl, sym, ap, ◌∙◌, inl, inr, Bool, true, false, ◌&&◌, ◌||◌, Option, none, some, arith,
  ◌==◌, ==_ne, Bool-cases, if-true, if-false, ran, ◌>>=◌, Returns, IfReturns, IfReturns-bind,
  IfHalts, IfHalts-bind, Outcome, halted, List, ◌++◌,
}
use mathlib.Core.Path.{subst}
use atheros_wifi.Netbuf.Buffer.{Netbuf, Callback}
use atheros_wifi.Htc.{Driver}
use atheros_wifi.Transmit.{has_callback}
use atheros_wifi.Bus.{a_pending, any, Custom, Bus, mask_spi_interrupts, unmask_interrupts}
use atheros_wifi.Bus.Shadow.{Answers}
use atheros_wifi.Bus.Transfer.Bytes.{Moves}
use atheros_wifi.Bus.Request.{transfer_complete}
use atheros_wifi.Bus.Request.Ownership.{IsRequest, IsWidth, hcd_request-Requested}
use atheros_wifi.Loop.{
  Loop, interrupt_handler, post_process_request, submit_request, restored, callback, called_back,
  complete_request, process_completed, process_pending,
}
use atheros_wifi.Loop.Receive.{is_idle}

-- The events: an interrupt of the target, the end of a DMA transfer, the thread's work on either,
-- and a request where the bus is idle, as `Driver_RxReady` and `Driver_TxReady` ask for.
pub data Step {D : Type 0} (hw : Custom D) : Loop D → Loop D → Type 0 where
  interrupt : (l : Loop D) → Step hw l (record l { bus = interrupt_handler hw l.bus })
  transferred : (l : Loop D) → Step hw l (record l { bus = transfer_complete l.bus })
  pending : (l l' : Loop D) → process_pending hw l ≡ ran l' → Step hw l l'
  read_done : (l l' : Loop D) → process_completed hw l ≡ ran l' → Step hw l l'
  request :
      (l l' : Loop D) (req : Netbuf) (status : ℕ)
      → is_idle l.bus ≡ true
      → l.bus.shutdown ≡ false
      → has_callback req ≡ true
      → IsRequest l.bus req
      → IsWidth l.bus.dma_data_width
      → submit_request hw l req ≡ ran (status, l')
      → Step hw l l'

pub data Reach {D : Type 0} (hw : Custom D) (l : Loop D) : Loop D → Type 0 where
  here : Reach hw l l
  next : {m n : Loop D} → Reach hw l m → Step hw m n → Reach hw l n

abbrev pub is_busy : {D : Type 0} → Bus D → Bool
is_busy b = b.dma_in_prog || b.dma_complete

abbrev pub called : Option Netbuf → Bool
called none = false
called (some req) = has_callback req

-- One request at most is on the bus or waits for its completion, it has a callback, the host does
-- not detect interrupts while the DMA engine owns the bus, and the packet interrupt is kept back
-- for no other reason.
pub record IsOwned {D : Type 0} (l : Loop D) : Type 0 where
  pub one : (l.bus.dma_in_prog && l.bus.dma_complete) ≡ false
  pub undetected : l.bus.dma_in_prog ≡ true → l.bus.irqs_enabled ≡ false
  pub has_request : is_busy l.bus ≡ true → called l.current ≡ true
  pub kept_back : any l.bus.irq_mask ≡ true → is_busy l.bus ≡ true

-- A request whose callback does not return.
abbrev pub CallbackHalts : {D : Type 0} → Loop D → Option Netbuf → Type 0
CallbackHalts l o =
    (req : Netbuf) × (cb : Callback) × (o ≡ some req)
    × (req.trans.cb ≡ some cb)
    × (callback l.htc l.mem cb req ≡ halted)

-- A call that keeps the bus owned, and halts only in the callback of the current request.
abbrev pub Completes : {D : Type 0} → Loop D → Outcome (Loop D) → Type 0
Completes l o = IfReturns (λ l'. IsOwned l') o × IfHalts (CallbackHalts l l.current) o

module _ {D : Type 0} (hw : Custom D) (count : D → ℕ) (answers : Answers hw)
    (m : Moves hw count) where
  called_back_lem :
      (l : Loop D) (o : Option Netbuf)
      → called o ≡ true
      → IfReturns (λ l'. l'.bus ≡ l.bus) (called_back l o)
        × IfHalts (CallbackHalts l o) (called_back l o)
  called_back_lem l none e = absurd (ground arith)
  called_back_lem l (some req) e = go req.trans.cb refl
    where
      go :
          (c : Option Callback)
          → req.trans.cb ≡ c
          → let run : Outcome (Loop D) = elim c [
            | none ↦ halted
            | some cb ↦ callback l.htc l.mem cb req >>= λ (d, bs).
                ran (record l { htc = d; completed = l.completed ++ bs })
          ] in
            IfReturns (λ l'. l'.bus ≡ l.bus) run × IfHalts (CallbackHalts l (some req)) run
      go none f = absurd (ground (arith, e, f))
      go (some cb) f = done (callback l.htc l.mem cb req) refl
        where
          done :
              (o : Outcome (Driver × List Netbuf))
              → callback l.htc l.mem cb req ≡ o
              → let run : Outcome (Loop D) =
                  o >>= λ (d, bs). ran (record l { htc = d; completed = l.completed ++ bs }) in
                IfReturns (λ l'. l'.bus ≡ l.bus) run × IfHalts (CallbackHalts l (some req)) run
          done (ran u) g = (refl, tt)
          done halted g = (tt, (req, cb, refl, f, g))

  restored_lem :
      (b : Bus D)
      → ((restored hw b).dma_in_prog ≡ b.dma_in_prog) × (any (restored hw b).irq_mask ≡ false)
  unfolding unmask_interrupts mask_spi_interrupts
  restored_lem b = ground arith

  freed :
      (l : Loop D)
      → l.bus.dma_in_prog ≡ false
      → any l.bus.irq_mask ≡ false
      → IsOwned (record l { current = none; bus = record l.bus { dma_complete = false } })
  freed l p q = record {
    one = ground (arith, p);
    undetected = λ y. absurd (ground (arith, p, y));
    has_request = λ y. absurd (ground (arith, p, y));
    kept_back = λ y. absurd (ground (arith, q, y));
  }

  -- If the callback returns, the bus is free.
  pub process_completed-IsOwned : (l : Loop D) → IsOwned l → Completes l (process_completed hw l)
  unfolding process_completed complete_request
  process_completed-IsOwned l v = elim (Bool-cases l.bus.dma_complete) [
    | inl y ↦
        let one = v.one in
        let busy : is_busy l.bus ≡ true = ground arith in
        let stopped : l.bus.dma_in_prog ≡ false = ground arith in
        let l1 = record l { bus = restored hw l.bus } in
        let (same, empty) = restored_lem l.bus in
        let (back, stop) = called_back_lem l1 l.current (v.has_request busy) in
        subst (Completes l) (sym (if-true l.bus.dma_complete _ (ran l) y)) (
          IfReturns-bind (λ l'. l'.bus ≡ l1.bus) (λ l'. IsOwned l') (called_back l1 l.current) _
              back
              λ l' e.
                freed l' (ap (λ (b : Bus D). b.dma_in_prog) e ∙ same ∙ stopped)
                  (ap (λ (b : Bus D). any b.irq_mask) e ∙ empty),
          IfHalts-bind (CallbackHalts l l.current) (called_back l1 l.current) _ stop λ l'. tt,
        )
    | inr n ↦ subst (Completes l) (sym (if-false l.bus.dma_complete _ (ran l) n)) (v, tt)
  ]

  pub submit_request-IsOwned :
      (l : Loop D) (req : Netbuf)
      → IsOwned l
      → is_idle l.bus ≡ true
      → l.bus.shutdown ≡ false
      → has_callback req ≡ true
      → IsRequest l.bus req
      → IsWidth l.bus.dma_data_width
      → Returns (λ (_, l'). IsOwned l') (submit_request hw l req)
  unfolding submit_request post_process_request
  submit_request-IsOwned l req v idle up cb is w =
      let fine : l.bus.fatal_error ≡ false = ground arith in
      let (c, o) = hcd_request-Requested hw count answers m l.bus req is w fine up in
      elim o [
        | inl (d, eq) ↦
            rw (eq, cb)
              record {
                one = ground (arith, idle);
                undetected = λ _. refl;
                has_request = λ _. cb;
                kept_back = λ _. refl;
              }
        | inr (s, d, ne, eq) ↦
            let other : (s == a_pending) ≡ false = ==_ne s a_pending ne in
            rw (eq, cb, other)
              record {
                one = ground (arith, idle);
                undetected = λ y. absurd (ground (arith, idle, y));
                has_request = λ _. cb;
                kept_back = λ _. ground (arith, idle);
              }
      ]
