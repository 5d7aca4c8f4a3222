-- ===== src/Util/Tests.antt =====
-- Channels of both bands, and the theorems at them.
use atheros_wifi.Prelude.{some, none, [], ◌∷◌, ◌≡◌, refl}
use atheros_wifi.Util.{Mapping, ac2endpoint_id, endpoint_id2ac, ieee2freq}

channel_6 : ieee2freq 6 ≡ 2437
unfolding ieee2freq
channel_6 = refl

abbrev one_queue : Mapping
one_queue = record { ac2ep_mapping = 2 ∷ 2 ∷ []; ep2ac_mapping = 0 ∷ 0 ∷ 1 ∷ [] }

looked_up :
    (ac2endpoint_id one_queue 1 ≡ some 2)
    × (endpoint_id2ac one_queue 2 ≡ some 1)
    × (ac2endpoint_id one_queue 2 ≡ none)
unfolding ac2endpoint_id endpoint_id2ac
looked_up = (refl, refl, refl)
