-- ===== src/Htc/Account.antt =====
-- The credits of an endpoint, however the target announces them.
use atheros_wifi.Prelude.{
  ℕ, zero, suc, ◌+◌, ◌-◌, ◌*◌, ◌/◌, ◌%◌, ◌^◌, ◌≤◌, ◌<◌, ◌≡◌, refl, ap, ◌∙◌, ◌≢◌, inl, inr, Option,
  none, some, List, [], ◌∷◌, arith, ◌==◌, lt→ltb, Bool-cases, get_or, drop, Returns, Returns-bind,
}
use atheros_wifi.Util.{get_endpoint}
use atheros_wifi.Htc.{
  Endpoint, Driver, with_ep, count_credits, report_credits, get_credit_counter_update,
  read_credit_counter, process_credit_rpt, endpoint_max, access, count_address,
}

-- The three counters of 8 bits stay below 2 ^ 8, `intCredits` too.
pub record IsEndpoint (e : Endpoint) : Type 0 where
  pub credits_lt : e.credits < 2 ^ 8
  pub rpt_lt : e.rpt_credit_counter < 2 ^ 8
  pub int_lt : e.int_credits < 2 ^ 8

-- The credits less those that the target has announced, in either way, modulo 2 ^ 8: what
-- the endpoint began with less what it has spent.
abbrev pub account : Endpoint → ℕ
account e = (e.credits + 2 ^ 9 - e.int_credits - e.rpt_credit_counter) % 2 ^ 8

-- An entry of a credit report of fewer than 2 ^ 8 credits keeps an endpoint in range, and its
-- account.
report_credits-account :
    (e : Endpoint) (n : ℕ)
    → IsEndpoint e
    → n < 2 ^ 8
    → IsEndpoint (report_credits e n) × (account (report_credits e n) ≡ account e)
unfolding report_credits
report_credits-account e n v h = ground arith

-- A reading of the 8-bit credit counter keeps an endpoint in range, and its account: the credits
-- less those announced, modulo 2 ^ 8.
pub count_credits-account :
    (e : Endpoint) (counter : ℕ)
    → IsEndpoint e
    → counter < 2 ^ 8
    → IsEndpoint (count_credits e counter) × (account (count_credits e counter) ≡ account e)
unfolding count_credits
count_credits-account e counter v h = ground arith

-- Credits that the counter has shown first are not added again when their report comes in: where
-- the report covers the credits taken by earlier readings, the endpoint ends with the credits that
-- the report alone gives.
pub report_credits-count_credits :
    (e : Endpoint) (n : ℕ)
    → IsEndpoint e
    → n < 2 ^ 8
    → e.int_credits ≤ n
    → (report_credits (count_credits e ((e.rpt_credit_counter + n) % 2 ^ 8)) n).credits
      ≡ (report_credits e n).credits
unfolding report_credits count_credits
report_credits-count_credits e n v h k = ground arith

-- A second reading of the same counter changes nothing.
count_credits_idem :
    (e : Endpoint) (counter : ℕ)
    → IsEndpoint e
    → counter < 2 ^ 8
    → count_credits (count_credits e counter) counter ≡ count_credits e counter
unfolding count_credits
count_credits_idem e counter v h = ground arith

-- Every endpoint is in range, and its account is the one it had before.
abbrev pub Accounted : Driver → Driver → Type 0
Accounted d d' = (i : ℕ) → IsEndpoint (d'.ep i) × (account (d'.ep i) ≡ account (d.ep i))

abbrev pub AreEndpoints : Driver → Type 0
AreEndpoints d = (i : ℕ) → IsEndpoint (d.ep i)

-- One endpoint of the table is replaced by one with the same account.
Accounted-ep :
    (d d' : Driver) (i : ℕ) (e : Endpoint)
    → Accounted d d'
    → IsEndpoint e × (account e ≡ account (d'.ep i))
    → Accounted d (with_ep d' i e)
Accounted-ep d d' i e a (v, q) j = elim (Bool-cases (j == i)) [
  | inl y ↦
      let same : i ≡ j = ground arith in
      let (_, before) = a i in rw y (v, q ∙ before ∙ ap (λ k. account (d.ep k)) same)
  | inr n ↦ rw n (a j)
]

pub AreEndpoints→Accounted : (d : Driver) → AreEndpoints d → Accounted d d
AreEndpoints→Accounted d v i = (v i, refl)

-- The value of every byte fits 8 bits.
abbrev pub AreBytes : List ℕ → Type 0
AreBytes bs = (i : ℕ) → get_or bs i 0 < 2 ^ 8

pub get_or-drop : (bs : List ℕ) (k i : ℕ) → get_or (drop k bs) i 0 ≡ get_or bs (k + i) 0
get_or-drop bs zero i = ap (λ j. get_or bs j 0) (omega arith)
get_or-drop [] (suc k) i = refl
get_or-drop (b ∷ bs) (suc k) i = get_or-drop bs k i ∙ ap (λ j. get_or (b ∷ bs) j 0) (next k i)
  where
    next : (k i : ℕ) → suc (k + i) ≡ suc k + i
    next k i = omega arith

pub drop-AreBytes : (bs : List ℕ) (k : ℕ) → AreBytes bs → AreBytes (drop k bs)
drop-AreBytes bs k h i = rw (get_or-drop bs k i) (h (k + i))

-- The endpoints that the first `n` entries of a report name.
abbrev pub NamesEndpoints : ℕ → List ℕ → Type 0
NamesEndpoints n rpt = (i : ℕ) → i < n → get_or rpt (2 * i) 0 < endpoint_max

-- A whole credit report whose entries name endpoints is taken in.
pub process_credit_rpt-Accounted :
    (n : ℕ) (rpt : List ℕ) (d d' : Driver)
    → AreBytes rpt
    → NamesEndpoints n rpt
    → Accounted d d'
    → Returns (λ d''. Accounted d d'') (process_credit_rpt n rpt d')
unfolding process_credit_rpt
process_credit_rpt-Accounted zero rpt d d' b h a = a
process_credit_rpt-Accounted (suc n) rpt d d' b h a =
    let id = get_or rpt 0 0 in
    let i = get_endpoint id in
    let (v, q) = a i in
    rw (lt→ltb id endpoint_max (h 0 (omega arith))) (
      process_credit_rpt-Accounted n (drop 2 rpt) d
        (with_ep d' i (report_credits (d'.ep i) (get_or rpt 1 0))) (drop-AreBytes rpt 2 b)
        (λ k lt. rw (get_or-drop rpt 2 (2 * k)) (later k (h (k + 1) (omega arith))))
        (Accounted-ep d d' i _ a (report_credits-account (d'.ep i) (get_or rpt 1 0) v (b 1))))
  where
    later :
        (k : ℕ)
        → get_or rpt (2 * (k + 1)) 0 < endpoint_max
        → get_or rpt (2 + 2 * k) 0 < endpoint_max
    later k h = rw (shift k) h
      where
        shift : (k : ℕ) → 2 + 2 * k ≡ 2 * (k + 1)
        shift k = omega arith

clear_counter-account :
    (e : Endpoint) (counter : ℕ)
    → IsEndpoint e
    → IsEndpoint (record e { int_credit_counter = counter })
      × (account (record e { int_credit_counter = counter }) ≡ account e)
clear_counter-account e counter v = ground arith

pub access_lem : (o : Option ℕ) → o ≢ none → Returns (λ _. Unit) (access o)
access_lem (some c) h = tt
access_lem none h = absurd (h refl)

-- Where the registers of the target can be read, `Htc_GetCreditCounterUpdate` returns, keeps every
-- endpoint in range, and keeps the account of each.
pub get_credit_counter_update-Accounted :
    (pio : ℕ → Option ℕ) (d : Driver) (ep_id : ℕ)
    → AreEndpoints d
    → ((a : ℕ) → pio a ≢ none)
    → Returns (λ d'. Accounted d d') (get_credit_counter_update pio d ep_id)
unfolding get_credit_counter_update read_credit_counter
get_credit_counter_update-Accounted pio d ep_id v h =
    let e = d.ep (get_endpoint ep_id) in
    let start = AreEndpoints→Accounted d v in
    elim (Bool-cases (d.htc_credit_init == 0)) [
      | inl y ↦ rw y (Accounted-ep d d _ _ start (clear_counter-account e 0 (v _)))
      | inr n ↦ rw n (
          Returns-bind (λ _. Unit) (λ d'. Accounted d d')
            (access (pio (count_address + 4 * (e.ep_idx / 4)))) _ (access_lem _ (h _))
            λ c _.
              Accounted-ep d d _ _ start (
                count_credits-account e (c / 2 ^ (8 * (e.ep_idx % 4)) % 2 ^ 8) (v _) (omega arith)))
    ]
