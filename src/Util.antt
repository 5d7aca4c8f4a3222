-- ===== src/Util.antt =====
-- common_src/util/util.c: channel numbers and frequencies, and the tables of endpoints.
pub mod Channel
mod Tests
use atheros_wifi.Prelude.{
  ℕ, ◌+◌, ◌-◌, ◌*◌, ◌/◌, ◌%◌, ◌^◌, Bool, ◌||◌, Option, List, ltb, leb, ◌==◌, if◌then◌else◌,
  get_elem?,
}

-- A QOSAL_INT32 is its bit pattern, below 2 ^ 32; this is `chan < k` for a small positive `k`.
abbrev pub signed_lt : ℕ → ℕ → Bool
signed_lt chan k = leb (2 ^ 31) chan || ltb chan k

-- `Util_Ieee2freq`. The sums are those of the integers modulo 2 ^ 16, which 2 ^ 32 goes into.
pub ieee2freq : ℕ → ℕ
ieee2freq chan =
    if chan == 14
    then 2484
    else (if signed_lt chan 14
        then (2407 + chan * 5) % 2 ^ 16
        else (if signed_lt chan 27
            then (2512 + (chan - 15) * 20) % 2 ^ 16
            else (5000 + chan * 5) % 2 ^ 16))

-- `a / k` on int, as the bit pattern of a QOSAL_UINT32: C rounds to 0. The dividend is `a - b`.
abbrev pub div_diff : ℕ → ℕ → ℕ → ℕ
div_diff a b k = if leb b a then (a - b) / k else (2 ^ 32 - (b - a) / k) % 2 ^ 32

-- `Util_Freq2ieee` of a uint16_t.
pub freq2ieee : ℕ → ℕ
freq2ieee freq =
    if freq == 2484
    then 14
    else (if ltb freq 2484
        then div_diff freq 2407 5
        else (if ltb freq 5000
            then (15 + div_diff freq 2512 20) % 2 ^ 32
            else div_diff freq 5000 5))

abbrev pub endpoint_managed_max : ℕ
endpoint_managed_max = 3

-- `Util_GetEndpoint` returns a pointer into the table: here, the index of the endpoint.
unfoldable pub get_endpoint : ℕ → ℕ
get_endpoint id = if leb endpoint_managed_max id then endpoint_managed_max - 1 else id

-- `ac2EpMapping` and `ep2AcMapping`
pub record Mapping : Type 0 where
  pub ac2ep_mapping : List ℕ
  pub ep2ac_mapping : List ℕ

-- `none` is a read outside the table.
unfoldable pub ac2endpoint_id : Mapping → ℕ → Option ℕ
ac2endpoint_id m ac = get_elem? m.ac2ep_mapping ac

pub endpoint_id2ac : Mapping → ℕ → Option ℕ
endpoint_id2ac m ep = get_elem? m.ep2ac_mapping ep
