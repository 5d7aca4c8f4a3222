-- ===== src/Strrcl/Order.antt =====
-- The store-recall procedure over all orders of requests and events.
use atheros_wifi.Prelude.{
  if-true, if-false, not, ℕ, ◌≡◌, refl, sym, inl, inr, Bool, true, false, ◌&&◌, arith, ◌==◌,
  if◌then◌else◌, Bool-cases, ran, Returns,
}
use mathlib.Core.Path.{subst}
use atheros_wifi.Strrcl.{
  State, st_disabled, st_init, st_start, st_active, st_active_b, st_await_fw, Strrcl,
  strrcl_chip_down, chip_up_start, recall, store_recall_event, store_recall_start_event, finish_by,
  chip_up_finish, run_asynch, ready_event, suspend_enable, suspend_start,
}

abbrev pub is_start : State → Bool
is_start st_start = true
is_start _ = false

abbrev pub is_active : State → Bool
is_active st_active = true
is_active _ = false

abbrev pub is_restarting : State → Bool
is_restarting st_active = true
is_restarting st_active_b = true
is_restarting _ = false

abbrev pub is_under_way : State → Bool
is_under_way st_start = true
is_under_way s = is_restarting s

-- The requests of the application, the events of the target, and the driver's thread, which calls
-- `asynchRequest`. It is assumed that the target starts a recall only where one was asked for:
-- `Api_StoreRecallStartEvent` does not test it.
pub data Step : Strrcl → Strrcl → Type 0 where
  enable : (s : Strrcl) (sent : Bool) → Step s (suspend_enable sent s).1
  start :
      (s : Strrcl) (max_perf : Bool) (msec : ℕ) (sent : Bool)
      → Step s (suspend_start max_perf msec sent s).1
  store :
      (s : Strrcl) (reinit boot download : Bool) (msec : ℕ)
      → Step s (store_recall_event reinit boot download msec s)
  started :
      (s : Strrcl) (reinit boot download : Bool) (msec : ℕ)
      → is_start s.state ≡ true
      → Step s (store_recall_start_event reinit boot download msec s)
  ready : (s : Strrcl) → Step s (ready_event s)
  finish :
      (s s' : Strrcl) (dma_in_prog stack_init recalls : Bool)
      → run_asynch dma_in_prog stack_init recalls s ≡ ran s'
      → Step s s'

pub data Reach (s : Strrcl) : Strrcl → Type 0 where
  here : Reach s s
  next : {t u : Strrcl} → Reach s t → Step t u → Reach s u

-- The application is blocked exactly while the procedure is under way, the call that finishes it is
-- registered only while the target is started again, and the target is off only in the first part of
-- that.
pub record IsStrrcl (s : Strrcl) : Type 0 where
  pub blocked : s.block ≡ is_under_way s.state
  pub asynch : s.has_asynch && is_restarting s.state ≡ s.has_asynch
  pub down : s.chip_down && is_active s.state ≡ s.chip_down

step-IsStrrcl : {s t : Strrcl} → IsStrrcl s → Step s t → IsStrrcl t
unfolding run_asynch suspend_enable suspend_start store_recall_event store_recall_start_event
    ready_event chip_up_finish recall chip_up_start strrcl_chip_down
step-IsStrrcl v (enable s sent) = ground (arith, v.blocked, v.asynch, v.down)
step-IsStrrcl v (start s max_perf msec sent) = ground (arith, v.blocked, v.asynch, v.down)
step-IsStrrcl v (store s reinit boot download msec) = ground (arith, v.blocked, v.asynch, v.down)
step-IsStrrcl v (started s reinit boot download msec is) =
    ground (arith, v.blocked, v.asynch, v.down, is)
step-IsStrrcl v (ready s) = record { blocked = v.blocked; asynch = v.asynch; down = v.down }
step-IsStrrcl v (finish s s' dma_in_prog stack_init recalls e) =
    ground (arith, v.blocked, v.asynch, v.down, e)

finish_by-IsStrrcl :
    (stack_init recalls : Bool) (st : State) (s : Strrcl)
    → s.state ≡ st
    → IsStrrcl s
    → s.has_asynch ≡ true
    → Returns IsStrrcl (finish_by stack_init recalls st s)
finish_by-IsStrrcl stack_init recalls st_active s e v is =
    ground (arith, e, v.blocked, v.asynch, v.down, is)
finish_by-IsStrrcl stack_init recalls st_active_b s e v is =
    ground (arith, e, v.blocked, v.asynch, v.down, is)
finish_by-IsStrrcl stack_init recalls st_disabled s e v is =
    absurd (ground (arith, e, v.asynch, is))
finish_by-IsStrrcl stack_init recalls st_init s e v is = absurd (ground (arith, e, v.asynch, is))
finish_by-IsStrrcl stack_init recalls st_start s e v is = absurd (ground (arith, e, v.asynch, is))
finish_by-IsStrrcl stack_init recalls st_await_fw s e v is =
    absurd (ground (arith, e, v.asynch, is))

run_asynch-IsStrrcl :
    (dma_in_prog stack_init recalls : Bool) (s : Strrcl)
    → IsStrrcl s
    → Returns IsStrrcl (run_asynch dma_in_prog stack_init recalls s)
unfolding run_asynch chip_up_finish
run_asynch-IsStrrcl dma_in_prog stack_init recalls s v =
    let back = finish_by-IsStrrcl stack_init recalls s.state s refl v in
    let finished : s.has_asynch ≡ true
        → Returns IsStrrcl (if s.wmi_ready then finish_by stack_init recalls s.state s else ran s) =
      λ is. elim (Bool-cases s.wmi_ready) [
        | inl y ↦
            subst (Returns IsStrrcl)
              (sym (if-true s.wmi_ready (finish_by stack_init recalls s.state s) (ran s) y))
              (back is)
        | inr y ↦
            subst (Returns IsStrrcl)
              (sym (if-false s.wmi_ready (finish_by stack_init recalls s.state s) (ran s) y)) v
      ] in
    elim (Bool-cases (not dma_in_prog && s.has_asynch)) [
      | inl y ↦
          subst (Returns IsStrrcl) (sym (if-true (not dma_in_prog && s.has_asynch) _ (ran s) y))
            (finished (ground arith))
      | inr y ↦
          subst (Returns IsStrrcl) (sym (if-false (not dma_in_prog && s.has_asynch) _ (ran s) y)) v
    ]

-- From a state in which this holds, after any sequence of the application's requests, the target's
-- events (a start event only where a recall was asked for) and calls of the driver's thread: the
-- application is blocked exactly while the procedure is under way, `Strrcl_ChipUpFinish` is
-- registered only while the target is started again, and the chip is down only in the first part
-- of that. The next call of `asynchRequest` returns, whatever succeeds in it, and keeps this.
pub Reach-IsStrrcl :
    (s t : Strrcl) (dma_in_prog stack_init recalls : Bool)
    → IsStrrcl s
    → Reach s t
    → IsStrrcl t × Returns IsStrrcl (run_asynch dma_in_prog stack_init recalls t)
Reach-IsStrrcl s t dma_in_prog stack_init recalls v r =
    let w = go v r in (w, run_asynch-IsStrrcl dma_in_prog stack_init recalls t w)
  where
    go : {t : Strrcl} → IsStrrcl s → Reach s t → IsStrrcl t
    go v here = v
    go v (next r st) = step-IsStrrcl (go v r) st

-- The procedure is over.
abbrev pub IsOver : Strrcl → Type 0
IsOver t = (t.state ≡ st_init) × (t.block ≡ false) × (t.chip_down ≡ false) × (t.has_asynch ≡ false)

finish_by-IsOver :
    (st : State) (s : Strrcl)
    → s.state ≡ st
    → IsStrrcl s
    → s.has_asynch ≡ true
    → Returns IsOver (finish_by true true st s)
finish_by-IsOver st_active s e v is = (refl, refl, refl, refl)
finish_by-IsOver st_active_b s e v is = (refl, refl, ground (arith, e, v.down), refl)
finish_by-IsOver st_disabled s e v is = absurd (ground (arith, e, v.asynch, is))
finish_by-IsOver st_init s e v is = absurd (ground (arith, e, v.asynch, is))
finish_by-IsOver st_start s e v is = absurd (ground (arith, e, v.asynch, is))
finish_by-IsOver st_await_fw s e v is = absurd (ground (arith, e, v.asynch, is))

-- Where the application is blocked exactly while the procedure is under way, `Strrcl_ChipUpFinish`
-- is registered only while the target is started again, and the chip is down only in the first
-- part of that: with `Strrcl_ChipUpFinish` registered and no transfer in progress, after the
-- target's ready event, one call of the driver's thread in which STACK_INIT and the command
-- succeed ends the procedure, with the chip up and the application no longer blocked.
pub run_asynch-ready_event :
    (s : Strrcl)
    → IsStrrcl s
    → s.has_asynch ≡ true
    → Returns IsOver (run_asynch false true true (ready_event s))
unfolding run_asynch chip_up_finish ready_event
run_asynch-ready_event s v is =
    let s' = record s { wmi_ready = true } in
    subst (Returns IsOver) (sym (if-true s.has_asynch (finish_by true true s.state s') (ran s') is))
      (finish_by-IsOver s.state s' refl
        (record { blocked = v.blocked; asynch = v.asynch; down = v.down }) is)

-- The target did not start again.
IsStuck : Strrcl → Type 0
IsStuck s = (s.state ≡ st_active) × (s.block ≡ true) × (s.chip_down ≡ true) × (s.has_asynch ≡ false)

step-IsStuck : {s t : Strrcl} → IsStuck s → Step s t → IsStuck t
unfolding IsStuck run_asynch suspend_enable suspend_start store_recall_event
    store_recall_start_event ready_event chip_up_finish recall chip_up_start strrcl_chip_down
step-IsStuck v (enable s sent) = ground (arith, v)
step-IsStuck v (start s max_perf msec sent) = ground (arith, v)
step-IsStuck v (store s reinit boot download msec) = ground (arith, v)
step-IsStuck v (started s reinit boot download msec is) = ground (arith, v, is)
step-IsStuck v (ready s) = v
step-IsStuck v (finish s s' dma_in_prog stack_init recalls e) = ground (arith, v, e)

-- Where the application is blocked exactly while the procedure is under way, `Strrcl_ChipUpFinish`
-- is registered only while the target is started again, and the chip is down only in the first
-- part of that: if a recall was asked for, and the target's event has a time of sleep and a step
-- of the start after it fails, the application stays blocked and the chip down, whatever requests
-- and events follow, where a start event comes only while a recall is asked for. The code does not
-- test that: with a time of 0, any other start event ends the procedure.
pub Reach-block :
    (s t : Strrcl) (reinit boot download : Bool) (msec : ℕ)
    → IsStrrcl s
    → s.state ≡ st_start
    → (msec == 0) ≡ false
    → (reinit && (boot && download)) ≡ false
    → Reach (store_recall_event reinit boot download msec s) t
    → (t.block ≡ true) × (t.chip_down ≡ true)
unfolding IsStuck store_recall_event recall chip_up_start strrcl_chip_down
Reach-block s t reinit boot download msec v is some_time fails r =
    let first : IsStuck (store_recall_event reinit boot download msec s) =
      ground (arith, v.blocked, v.asynch, v.down, is, some_time, fails) in
    let (_, b, d, _) = go first r in (b, d)
  where
    go : {s t : Strrcl} → IsStuck s → Reach s t → IsStuck t
    go v here = v
    go v (next r st) = step-IsStuck (go v r) st
