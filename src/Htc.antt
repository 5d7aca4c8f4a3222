-- ===== src/Htc.antt =====
-- common_src/htc/htc.c: the host-target protocol, its endpoints and their transmit credits. The
-- configuration is the default one: 8-bit credit counters, no reverse credits, assertions enabled.
pub mod Frame
pub mod Connect
pub mod Account
pub mod Trailer
pub mod Header
pub mod Start
mod Tests
use atheros_wifi.Prelude.{
  ℕ, zero, suc, ◌+◌, ◌-◌, ◌*◌, ◌/◌, ◌%◌, ◌^◌, Bool, ◌&&◌, Option, none, some, List, ltb, leb, ◌==◌,
  if◌then◌else◌, get_or, drop, Outcome, ran, halted, ◌>>=◌, ◌>>◌, assert,
}
use atheros_wifi.Util.{get_endpoint}

-- `A_ENDPOINT_T`
pub record Endpoint : Type 0 where
  pub max_msg_length : ℕ
  pub service_id : ℕ
  pub int_credits : ℕ
  pub int_credit_counter : ℕ
  pub rpt_credit_counter : ℕ
  pub ep_idx : ℕ
  pub credits : ℕ
  pub max_credits : ℕ
  pub seq_no : ℕ

-- The fields of A_DRIVER_CONTEXT that the protocol keeps. `ep` is the table of three endpoints.
pub record Driver : Type 0 where
  pub credit_count : ℕ
  pub credit_size : ℕ
  pub htc_credit_init : ℕ
  pub htc_start : Bool
  pub cpu_interrupt_cause : ℕ
  pub look_ahead : ℕ
  pub block_mask : ℕ
  pub ep : ℕ → Endpoint

abbrev pub with_ep : Driver → ℕ → Endpoint → Driver
with_ep d i e = record d { ep = λ j. if j == i then e else d.ep j }

abbrev pub count_address : ℕ
count_address = 0x420

abbrev pub endpoint_max : ℕ
endpoint_max = 6

-- What `Hcd_DoPioExternalAccess` reads from a register of the target, asserted to succeed.
abbrev pub access : Option ℕ → Outcome ℕ
access (some collector) = ran collector
access none = halted

-- `Htc_ReadCreditCounter`. `pio` gives the target's registers, `none` where the access fails.
unfoldable pub read_credit_counter : (ℕ → Option ℕ) → ℕ → Outcome ℕ
read_credit_counter pio index = access (pio (count_address + 4 * index))

-- What `Htc_GetCreditCounterUpdate` does with the 8-bit counter that it has read.
unfoldable pub count_credits : Endpoint → ℕ → Endpoint
count_credits e counter =
    let credits = (counter + 2 ^ 8 - e.rpt_credit_counter) % 2 ^ 8 in
    if ltb credits e.int_credits then record e { int_credit_counter = counter } else record e {
      int_credit_counter = counter;
      int_credits = e.int_credits + (credits - e.int_credits);
      credits = (e.credits + (credits - e.int_credits)) % 2 ^ 8;
    }

unfoldable pub get_credit_counter_update : (ℕ → Option ℕ) → Driver → ℕ → Outcome Driver
get_credit_counter_update pio d ep_id =
    let i = get_endpoint ep_id in
    if d.htc_credit_init == 0
    then ran (with_ep d i (record (d.ep i) { int_credit_counter = 0 }))
    else (do
      collector ← read_credit_counter pio ((d.ep i).ep_idx / 4)
      ran (
          with_ep d i
            (count_credits (d.ep i) (collector / 2 ^ (8 * ((d.ep i).ep_idx % 4)) % 2 ^ 8))))

abbrev pub provided : Endpoint → ℕ → Endpoint
provided e n = record e {
  max_credits = n % 2 ^ 8;
  credits = n % 2 ^ 8;
  rpt_credit_counter = 0;
  int_credit_counter = 0;
  int_credits = 0;
}

-- `Htc_DistributeCredits`: one credit each for endpoints 0 and 1, the others for endpoint 2.
pub distribute_credits : Driver → Driver
distribute_credits d =
    let num_credits = (d.credit_count % 2 ^ 16 + 2 ^ 32 - 2) % 2 ^ 32 in
    let d0 = with_ep d 0 (provided (d.ep 0) 1) in
    let d1 = with_ep d0 1 (provided (d0.ep 1) 1) in with_ep d1 2 (provided (d1.ep 2) num_credits)

-- One entry of a credit report.
pub report_credits : Endpoint → ℕ → Endpoint
report_credits e n =
    let rpt = (e.rpt_credit_counter + n) % 2 ^ 8 in
    if e.int_credits == 0
    then record e { rpt_credit_counter = rpt; credits = (e.credits + n) % 2 ^ 8 }
    else (if leb e.int_credits n
        then record e {
          rpt_credit_counter = rpt;
          int_credits = 0;
          credits = (e.credits + (n - e.int_credits)) % 2 ^ 8;
        }
        else record e { rpt_credit_counter = rpt; int_credits = e.int_credits - n })

-- `Htc_ProcessCreditRpt` over the bytes of the report: per entry, the endpoint and the credits.
pub process_credit_rpt : ℕ → List ℕ → Driver → Outcome Driver
process_credit_rpt zero rpt d = ran d
process_credit_rpt (suc n) rpt d = do
  let id = get_or rpt 0 0
  assert (ltb id endpoint_max)
  let i = get_endpoint id
  process_credit_rpt n (drop 2 rpt) (with_ep d i (report_credits (d.ep i) (get_or rpt 1 0)))

-- `HTC_ProcessCpuInterrupt`: the first interrupt for the credits reads their number.
pub process_cpu_interrupt : (ℕ → Option ℕ) → Driver → Outcome Driver
process_cpu_interrupt pio d =
    if d.cpu_interrupt_cause % 2 == 1 && d.htc_credit_init == 0
    then (do
      collector ← access (pio (count_address + 4))
      let d' = record d { htc_credit_init = 1; credit_count = collector / 2 ^ 24 % 2 ^ 8 }
      ran (record (distribute_credits d') { cpu_interrupt_cause = 0 }))
    else ran (record d { cpu_interrupt_cause = 0 })
