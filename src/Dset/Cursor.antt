-- ===== src/Dset/Cursor.antt =====
-- Going through the table.
use atheros_wifi.Prelude.{
  ℕ, zero, suc, ◌+◌, ◌-◌, ◌≤◌, ◌<◌, ◌≡◌, refl, sym, ap, ◌∙◌, inl, inr, true, false, Option, none,
  some, List, [], ◌∷◌, arith, ◌==◌, if◌then◌else◌, Bool-cases, length, take, drop, length-drop,
}
use atheros_wifi.Dset.{Table, slot, live, advance, dset_fill, dset_get_first, dset_get_next}
use atheros_wifi.Dset.Table.{IsFirst, first_slot-IsFirst}

-- The next slot in use from an index on, with the cursor past it; or none is left, and the cursor
-- stays.
abbrev pub IsNext : Table → ℕ → ℕ → ℕ × Option ℕ → Type 0
IsNext t old base (next, none) =
    (next ≡ old) × ((j : ℕ) → base ≤ j → j < length t → live (slot t j) ≡ false)
IsNext t old base (next, some i) =
    (next ≡ i + 1)
    × (base ≤ i)
    × (i < length t)
    × (live (slot t i) ≡ true)
    × ((j : ℕ) → base ≤ j → j < i → live (slot t j) ≡ false)

slot-drop : (t : Table) (k j : ℕ) → slot (drop k t) j ≡ slot t (k + j)
slot-drop t zero j = ap (slot t) (omega arith)
slot-drop [] (suc k) j = refl
slot-drop (s ∷ ss) (suc k) j = slot-drop ss k j ∙ ap (slot (s ∷ ss)) (next k j)
  where
    next : (k j : ℕ) → suc (k + j) ≡ suc k + j
    next k j = omega arith

advance-IsNext :
    (t : Table) (old base : ℕ) (o : Option ℕ)
    → IsFirst live (drop base t) o
    → IsNext t old base (advance old base o)
advance-IsNext t old base none f = (
  refl,
  λ j h k.
      ap live (at j h ∙ sym (slot-drop t base (j - base)))
      ∙ f (j - base) (omega (arith, length-drop base t)),
)
  where
    at : (j : ℕ) → base ≤ j → slot t j ≡ slot t (base + (j - base))
    at j h = ap (slot t) (omega arith)
advance-IsNext t old base (some i) (h, y, f) = (
  refl,
  omega arith,
  omega (arith, length-drop base t),
  ap live (sym (slot-drop t base i)) ∙ y,
  λ j h k. ap live (at j h ∙ sym (slot-drop t base (j - base))) ∙ f (j - base) (omega arith),
)
  where
    at : (j : ℕ) → base ≤ j → slot t j ≡ slot t (base + (j - base))
    at j h = ap (slot t) (omega arith)

-- `dset_get_first` gives the first slot in use, and `dset_get_next` the first from the cursor on;
-- both leave the cursor behind the slot, or where it was if there is none.
get_first_next_lem :
    (t : Table) (next : ℕ)
    → IsNext t next 0 (dset_get_first t next) × IsNext t next next (dset_get_next t next)
unfolding dset_get_first dset_get_next
get_first_next_lem t next = (
  advance-IsNext t next 0 _ (first_slot-IsFirst live t),
  advance-IsNext t next next _ (first_slot-IsFirst live (drop next t)),
)

-- The identifiers and lengths of the slots in use, in the order of the table.
abbrev pub items : Table → List (ℕ × ℕ)
items [] = []
items (s ∷ ss) = let rest = items ss in if live s then (s.dset_id, s.length) ∷ rest else rest

-- `dset_fill` gives the identifiers and lengths of the slots in use, in the order of the table, up
-- to the count that is asked for.
dset_fill_lem : (t : Table) (n : ℕ) → dset_fill t n ≡ take n (items t)
unfolding dset_fill
dset_fill_lem [] zero = refl
dset_fill_lem [] (suc n) = refl
dset_fill_lem (s ∷ ss) zero = refl
dset_fill_lem (s ∷ ss) (suc n) = elim (Bool-cases (s.dset_id == 0)) [
  | inl y ↦ rw (y, dset_fill_lem ss (suc n)) refl
  | inr m ↦ rw (m, dset_fill_lem ss n) refl
]
