-- ===== src/Strrcl.antt =====
-- common_src/storerecall/storerecall.c, with the requests and events that lead to it: the target is
-- switched off for a while, started again, and given back what it stored.
pub mod Order
mod Tests
use atheros_wifi.Prelude.{
  ℕ, Bool, true, false, ◌&&◌, not, leb, ◌==◌, if◌then◌else◌, Outcome, ran, halted,
}

-- `strrclState`
pub data State : Type 0 where
  st_disabled st_init st_start st_active st_active_b st_await_fw : State

abbrev pub is_disabled : State → Bool
is_disabled st_disabled = true
is_disabled _ = false

abbrev pub is_init : State → Bool
is_init st_init = true
is_init _ = false

abbrev pub min_strrcl_msec : ℕ
min_strrcl_msec = 100

-- The fields of A_DRIVER_CONTEXT that the procedure uses: `has_asynch` says whether `asynchRequest` is
-- Strrcl_ChipUpFinish.
pub record Strrcl : Type 0 where
  pub state : State
  pub block : Bool
  pub chip_down : Bool
  pub wmi_ready : Bool
  pub has_asynch : Bool

-- `Strrcl_ChipDown`
pub strrcl_chip_down : Strrcl → Strrcl
strrcl_chip_down s = record s { chip_down = true; wmi_ready = false }

-- `Strrcl_ChipUpStart`: the three steps of the start say whether they succeed.
pub chip_up_start : (reinit boot download : Bool) → Strrcl → Bool × Strrcl
chip_up_start reinit boot download s =
    if reinit && (boot && download) then (true, record s { has_asynch = true }) else (false, s)

-- `Strrcl_Recall`, which does not look at the status of the start.
pub recall : (reinit boot download : Bool) → Strrcl → Strrcl
recall reinit boot download s = (chip_up_start reinit boot download (strrcl_chip_down s)).1

-- The parts of both events that they share.
abbrev pub stored : (reinit boot download : Bool) → (msec_sleep : ℕ) → Strrcl → Strrcl
stored reinit boot download msec_sleep s =
    if msec_sleep == 0
    then record s { state = st_init; block = false }
    else recall reinit boot download (record s { state = st_active })

-- `Api_StoreRecallEvent`
pub store_recall_event : (reinit boot download : Bool) → (msec_sleep : ℕ) → Strrcl → Strrcl
store_recall_event reinit boot download msec_sleep s = elim s.state [
  | st_start ↦ stored reinit boot download msec_sleep s
  | st_await_fw ↦ record s { state = st_init; block = false }
  | st_disabled ↦ s
  | st_init ↦ s
  | st_active ↦ s
  | st_active_b ↦ s
]

-- `Api_StoreRecallStartEvent`
pub store_recall_start_event : (reinit boot download : Bool) → (msec_sleep : ℕ) → Strrcl → Strrcl
store_recall_start_event reinit boot download msec_sleep s =
    stored reinit boot download msec_sleep s

-- The end of `Strrcl_ChipUpFinish`: `recalls` says whether `wmi_storerecall_recall_cmd` succeeds.
abbrev pub recalled : (recalls : Bool) → Strrcl → Strrcl
recalled recalls s =
    let s' = record s { state = st_active_b } in
    if recalls then record s' { state = st_init; block = false; has_asynch = false } else s'

abbrev pub finish_by : (stack_init recalls : Bool) → State → Strrcl → Outcome Strrcl
finish_by stack_init recalls st_active s =
    let s' = record s { chip_down = false } in ran (if stack_init then recalled recalls s' else s')
finish_by stack_init recalls st_active_b s = ran (recalled recalls s)
finish_by stack_init recalls _ s = halted

-- `Strrcl_ChipUpFinish`: `stack_init` says whether STACK_INIT succeeds.
pub chip_up_finish : (stack_init recalls : Bool) → Strrcl → Outcome Strrcl
chip_up_finish stack_init recalls s =
    if s.wmi_ready then finish_by stack_init recalls s.state s else ran s

-- `Api_ReadyEvent` sets `wmiReady`.
pub ready_event : Strrcl → Strrcl
ready_event s = record s { wmi_ready = true }

-- The request ATH_DEVICE_SUSPEND_ENABLE: the command, and whether the request is an error.
pub suspend_enable : (sent : Bool) → Strrcl → Bool × Strrcl
suspend_enable sent s =
    if is_disabled s.state && sent
    then (false, record s { state = st_init })
    else ((if is_init s.state then false else true), s)

-- The request ATH_DEVICE_SUSPEND_START, in one step as it raises the priority of its task: the change
-- of the power state, the time, the command, and whether the request is an error.
pub suspend_start : (max_perf : Bool) → (msec : ℕ) → (sent : Bool) → Strrcl → Bool × Strrcl
suspend_start max_perf msec sent s =
    if max_perf && (is_init s.state && leb min_strrcl_msec msec)
    then (if sent
        then (false, record s { state = st_start; block = true })
        else (true, record s { block = false }))
    else (true, s)

-- The call of `asynchRequest` in `Driver_Main`.
pub run_asynch : (dma_in_prog stack_init recalls : Bool) → Strrcl → Outcome Strrcl
run_asynch dma_in_prog stack_init recalls s =
    if not dma_in_prog && s.has_asynch then chip_up_finish stack_init recalls s else ran s
