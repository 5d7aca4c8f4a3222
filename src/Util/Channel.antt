-- ===== src/Util/Channel.antt =====
-- Channel numbers through frequencies and back.
use atheros_wifi.Prelude.{ℕ, ◌+◌, ◌^◌, ◌≤◌, ◌<◌, ◌≡◌, arith}
use atheros_wifi.Util.{ieee2freq, freq2ieee, get_endpoint, endpoint_managed_max}

-- Every channel number up to 12107 comes back from its frequency.
freq2ieee-ieee2freq : (chan : ℕ) → chan < 12108 → freq2ieee (ieee2freq chan) ≡ chan
unfolding freq2ieee ieee2freq
freq2ieee-ieee2freq chan h = ground arith

-- A 16-bit frequency from 5135 MHz on is taken down by less than 5 MHz to that of a whole channel,
-- and never up.
ieee2freq-freq2ieee :
    (freq : ℕ)
    → 5135 ≤ freq
    → freq < 2 ^ 16
    → (ieee2freq (freq2ieee freq) ≤ freq) × (freq < ieee2freq (freq2ieee freq) + 5)
unfolding freq2ieee ieee2freq
ieee2freq-freq2ieee freq h k = ground arith

-- Any endpoint identifier, from the network or not, gives an endpoint of the table.
pub get_endpoint-lt : (id : ℕ) → get_endpoint id < endpoint_managed_max
unfolding get_endpoint
get_endpoint-lt id = ground arith
