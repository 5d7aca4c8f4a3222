-- ===== src/Htc/Start.antt =====
-- What the set-up of the protocol leaves.
use atheros_wifi.Prelude.{ℕ, ◌+◌, ◌-◌, ◌%◌, ◌^◌, ◌<◌, ◌≡◌, refl, ◌≢◌, ◌↔◌, ◌⊎◌, none, arith, halted}
use atheros_wifi.Htc.{Driver, Endpoint, distribute_credits, provided}
use atheros_wifi.Htc.Account.{IsEndpoint}
use atheros_wifi.Htc.Connect.{service, mark_endpoint, connect_service}

-- An endpoint that has all its credits, and none of them by report or counter.
abbrev pub IsProvided : Endpoint → Type 0
IsProvided e =
    IsEndpoint e
    × (e.credits ≡ e.max_credits)
    × (0 < e.credits)
    × (e.int_credits ≡ 0)
    × (e.rpt_credit_counter ≡ 0)

provided-IsProvided : (e : Endpoint) (n : ℕ) → 0 < n → n < 2 ^ 8 → IsProvided (provided e n)
provided-IsProvided e n h k = (
  record { credits_lt = omega arith; rpt_lt = omega arith; int_lt = omega arith },
  refl,
  omega arith,
  refl,
  refl,
)

small : (a : ℕ) → 2 < a → a < 2 ^ 8 → (a % 2 ^ 16 + 2 ^ 32 - 2) % 2 ^ 32 ≡ a - 2
small a h k = omega arith

-- Of a credit count between 3 and 255, `Htc_DistributeCredits` gives out every credit: one to each
-- of the endpoints 0 and 1, the rest to endpoint 2; the three are in range with no credits taken
-- by report or counter.
distribute_credits_lem :
    (d : Driver)
    → 2 < d.credit_count
    → d.credit_count < 2 ^ 8
    → let d' = distribute_credits d in
      ((d'.ep 0).credits + (d'.ep 1).credits + (d'.ep 2).credits ≡ d.credit_count)
      × IsProvided (d'.ep 0)
      × IsProvided (d'.ep 1)
      × IsProvided (d'.ep 2)
unfolding distribute_credits
distribute_credits_lem d h k = rw (small d.credit_count h k) (
  omega arith,
  provided-IsProvided (d.ep 0) 1 (omega arith) (omega arith),
  provided-IsProvided (d.ep 1) 1 (omega arith) (omega arith),
  provided-IsProvided (d.ep 2) (d.credit_count - 2) (omega arith) (omega arith),
)

-- Without a hook, exactly the six known services connect: every other identifier halts the driver.
connect_service_halts :
    (d : Driver) (service_id : ℕ)
    → (connect_service none d service_id ≡ halted)
      ↔ ((service_id ≢ 1) × ((service_id < 0x100) ⊎ (0x104 < service_id)))
unfolding connect_service mark_endpoint service
connect_service_halts d service_id = ground arith
