-- ===== src/Dset/Tests.antt =====
-- A small table, and the theorems at it.
use atheros_wifi.Prelude.{
  ℕ, zero, suc, ◌<◌, ◌≡◌, refl, sym, ◌∙◌, ◌≢◌, none, some, List, [], ◌∷◌, arith,
}
use atheros_wifi.Dset.{HostDset, Table, slot, free_slot, dset_get, dset_write, dset_read}
use atheros_wifi.Dset.Table.{IsUnique, Gets, dset_get_lem}
use atheros_wifi.Dset.Access.{HasBuffer, dset_read-dset_write, dset_write-outside}

abbrev four : HostDset
four = record { dset_id = 4; length = 3; data_ptr = some (1 ∷ 2 ∷ 3 ∷ []) }

abbrev table : Table
table = free_slot ∷ four ∷ free_slot ∷ []

used : (i : ℕ) → i < 3 → (slot table i).dset_id ≢ 0 → i ≡ 1
used zero h z = absurd (z refl)
used (suc zero) h z = refl
used (suc (suc zero)) h z = absurd (z refl)
used (suc (suc (suc i))) h z = absurd (omega arith)

table-IsUnique : IsUnique table
table-IsUnique i j h k z e = used i h z ∙ sym (used j k (λ y. z (e ∙ y)))

dset_get_lem_example : Gets table 9 2 (0 ∷ 0 ∷ []) (dset_get (some (0 ∷ 0 ∷ [])) table 9 2)
dset_get_lem_example = dset_get_lem table 9 2 (0 ∷ 0 ∷ []) table-IsUnique (omega arith)

dset_read-dset_write_example :
    (s' : HostDset) × (buffer' : List ℕ) × (dset_write four (7 ∷ 8 ∷ 9 ∷ []) 1 3 ≡ some (2, s'))
    × (dset_read s' 1 3 ≡ some (2, 7 ∷ 8 ∷ []))
    × HasBuffer s' buffer'
    × (s'.length ≡ 3)
dset_read-dset_write_example =
    dset_read-dset_write four (1 ∷ 2 ∷ 3 ∷ []) (7 ∷ 8 ∷ 9 ∷ []) 1 3 (refl, refl, omega arith)
      (omega arith) (omega arith) (omega arith)

dset_write-outside_example : dset_write four (7 ∷ []) 5 1 ≡ none
dset_write-outside_example =
    dset_write-outside four (1 ∷ 2 ∷ 3 ∷ []) (7 ∷ []) 5 1 (refl, refl, omega arith) (omega arith)
      (omega arith)
