-- ===== src/Dset/Table.antt =====
-- Finding and making entries of the table.
use atheros_wifi.Prelude.{
  ℕ, zero, suc, ◌<◌, ◌≡◌, refl, sym, ap, ◌∙◌, ◌≢◌, ◌⊎◌, inl, inr, Bool, true, false, Option, none,
  some, List, [], ◌∷◌, arith, ◌==◌, ==_refl, ==_ne, Bool-cases, length, set, length-set,
  get_or-set_self, get_or-set_ne,
}
use atheros_wifi.Dset.{
  HostDset, Table, slot, free_slot, first_slot, dset_find, dset_insert, dset_get, insert_at, renew,
  found_or_inserted,
}

-- A slot that passes the test where none before it does; or none passes.
abbrev pub IsFirst : (HostDset → Bool) → Table → Option ℕ → Type 0
IsFirst p t none = (j : ℕ) → j < length t → p (slot t j) ≡ false
IsFirst p t (some i) =
    (i < length t) × (p (slot t i) ≡ true) × ((j : ℕ) → j < i → p (slot t j) ≡ false)

cons-IsFirst :
    (p : HostDset → Bool) (s : HostDset) (ss : Table) (o : Option ℕ)
    → p s ≡ false
    → IsFirst p ss o
    → IsFirst p (s ∷ ss) (elim o [ some i ↦ some (suc i) | none ↦ none ])
cons-IsFirst p s ss none n f = none_passes
  where
    none_passes : (j : ℕ) → j < suc (length ss) → p (slot (s ∷ ss) j) ≡ false
    none_passes zero h = n
    none_passes (suc j) h = f j (omega arith)
cons-IsFirst p s ss (some i) n (h, y, f) = (omega arith, y, before)
  where
    before : (j : ℕ) → j < suc i → p (slot (s ∷ ss) j) ≡ false
    before zero k = n
    before (suc j) k = f j (omega arith)

pub first_slot-IsFirst : (p : HostDset → Bool) (t : Table) → IsFirst p t (first_slot p t)
unfolding first_slot
first_slot-IsFirst p [] = λ j h. absurd (omega arith)
first_slot-IsFirst p (s ∷ ss) = elim (Bool-cases (p s)) [
  | inl y ↦ rw y (omega arith, y, λ j h. absurd (omega arith))
  | inr n ↦ rw n (cons-IsFirst p s ss (first_slot p ss) n (first_slot-IsFirst p ss))
]

pub first_slot_intro :
    (p : HostDset → Bool) (t : Table) (i : ℕ)
    → i < length t
    → p (slot t i) ≡ true
    → ((j : ℕ) → j < i → p (slot t j) ≡ false)
    → first_slot p t ≡ some i
unfolding first_slot
first_slot_intro p [] i h y n = absurd (omega arith)
first_slot_intro p (s ∷ ss) zero h y n = rw y refl
first_slot_intro p (s ∷ ss) (suc i) h y n =
    rw (n 0 (omega arith), first_slot_intro p ss i (omega arith) y (λ j k. n (suc j) (omega arith)))
      refl

-- No two slots in use have the same identifier.
abbrev pub IsUnique : Table → Type 0
IsUnique t =
    (i j : ℕ)
    → i < length t
    → j < length t
    → (slot t i).dset_id ≢ 0
    → (slot t i).dset_id ≡ (slot t j).dset_id
    → i ≡ j

-- What a request for a data set leaves: its slot is at `i`, with the new buffer, and the other
-- slots are as they were.
abbrev pub Holds : Table → ℕ → ℕ → List ℕ → Table → ℕ → Type 0
Holds t dset_id size pbuf t' i =
    (length t' ≡ length t)
    × (i < length t)
    × (slot t' i ≡ record { dset_id = dset_id; length = size; data_ptr = some pbuf })
    × ((j : ℕ) → j ≢ i → slot t' j ≡ slot t j)
    × ((j : ℕ) → j < length t → j ≢ i → (slot t j).dset_id ≢ dset_id)

-- The slot that `dset_get` takes.
abbrev IsTaken : Table → ℕ → Table × Option ℕ → Type 0
IsTaken t dset_id (t', none) =
    (t' ≡ t) × ((j : ℕ) → j < length t → ((slot t j).dset_id ≢ dset_id) × ((slot t j).dset_id ≢ 0))
IsTaken t dset_id (t', some i) =
    (length t' ≡ length t)
    × (i < length t)
    × ((slot t' i).dset_id ≡ dset_id)
    × ((j : ℕ) → j ≢ i → slot t' j ≡ slot t j)
    × ((j : ℕ) → j < length t → j ≢ i → (slot t j).dset_id ≢ dset_id)

differs : (a b : ℕ) → (a == b) ≡ false → a ≢ b
differs a b h = ground arith

inserted :
    (t : Table) (dset_id : ℕ) (o : Option ℕ)
    → ((j : ℕ) → j < length t → (slot t j).dset_id ≢ dset_id)
    → IsFirst (λ s. s.dset_id == 0) t o
    → IsTaken t dset_id (insert_at t dset_id o)
inserted t dset_id none absent f = (refl, λ j h. (absent j h, differs (slot t j).dset_id 0 (f j h)))
inserted t dset_id (some i) absent (h, y, f) = (
  length-set t i _,
  h,
  ap (λ s. s.dset_id) (get_or-set_self t i _ free_slot h),
  λ j n. get_or-set_ne t i j _ free_slot (λ e. n (sym e)),
  λ j k n. absent j k,
)

taken :
    (t : Table) (dset_id : ℕ) (o : Option ℕ)
    → IsUnique t
    → dset_id ≢ 0
    → IsFirst (λ s. s.dset_id == dset_id) t o
    → IsTaken t dset_id (found_or_inserted t dset_id o)
unfolding dset_insert
taken t dset_id none u z f =
    inserted t dset_id _ (λ j h. differs (slot t j).dset_id dset_id (f j h))
      (first_slot-IsFirst (λ s. s.dset_id == 0) t)
taken t dset_id (some i) u z (h, y, f) =
    let is : (slot t i).dset_id ≡ dset_id = ground arith in
    (refl, h, is, λ j n. refl, λ j k n e. n (u j i k h (λ q. z (sym e ∙ q)) (e ∙ sym is)))

-- What `dset_get` leaves.
abbrev pub Gets : Table → ℕ → ℕ → List ℕ → Table × Option ℕ → Type 0
Gets t dset_id size pbuf (t', none) =
    (t' ≡ t) × ((j : ℕ) → j < length t → ((slot t j).dset_id ≢ dset_id) × ((slot t j).dset_id ≢ 0))
Gets t dset_id size pbuf (t', some i) =
    Holds t dset_id size pbuf t' i × (dset_find t' dset_id ≡ some i) × IsUnique t'

at_two : (t : Table) (i j : ℕ) → (i ≡ j) ⊎ (i ≢ j)
at_two t i j = ground arith

Holds-IsUnique :
    (t t' : Table) (dset_id size : ℕ) (pbuf : List ℕ) (i : ℕ)
    → IsUnique t
    → Holds t dset_id size pbuf t' i
    → IsUnique t'
Holds-IsUnique t t' dset_id size pbuf i u (l, h, is, others, only) j k a b z e =
    elim (at_two t j i) [
      | inl p ↦ (elim (at_two t k i) [
        | inl q ↦ p ∙ sym q
        | inr q ↦ absurd (
            only k (omega arith) q (
              ap (λ s. s.dset_id) (sym (others k q))
              ∙ sym e
              ∙ ap (λ x. (slot t' x).dset_id) p
              ∙ ap (λ s. s.dset_id) is))
      ])
      | inr p ↦ (elim (at_two t k i) [
        | inl q ↦ absurd (
            only j (omega arith) p (
              ap (λ s. s.dset_id) (sym (others j p))
              ∙ e
              ∙ ap (λ x. (slot t' x).dset_id) q
              ∙ ap (λ s. s.dset_id) is))
        | inr q ↦
            u j k (omega arith) (omega arith) (λ n. z (ap (λ s. s.dset_id) (others j p) ∙ n))
              (ap (λ s. s.dset_id) (sym (others j p)) ∙ e ∙ ap (λ s. s.dset_id) (others k q))
      ])
    ]

Holds-find :
    (t t' : Table) (dset_id size : ℕ) (pbuf : List ℕ) (i : ℕ)
    → Holds t dset_id size pbuf t' i
    → dset_find t' dset_id ≡ some i
unfolding dset_find
Holds-find t t' dset_id size pbuf i (l, h, is, others, only) =
    first_slot_intro (λ s. s.dset_id == dset_id) t' i (omega arith) (rw is (==_refl dset_id))
      λ j k.
        let n : j ≢ i = omega arith in
        rw (others j n) (==_ne (slot t j).dset_id dset_id (only j (omega arith) n))

renewed :
    (t : Table) (dset_id size : ℕ) (pbuf : List ℕ) (r : Table × Option ℕ)
    → IsUnique t
    → IsTaken t dset_id r
    → Gets t dset_id size pbuf (renew (some pbuf) size r)
renewed t dset_id size pbuf (t', none) u h = h
renewed t dset_id size pbuf (t', some i) u (l, h, is, others, only) =
    let t'' = set t' i (record (slot t' i) { length = size; data_ptr = some pbuf }) in
    let holds : Holds t dset_id size pbuf t'' i = (
      length-set t' i _ ∙ l,
      h,
      get_or-set_self t' i _ free_slot (omega arith)
          ∙ ap (λ d. record { dset_id = d; length = size; data_ptr = some pbuf }) is,
      λ j n. get_or-set_ne t' i j _ free_slot (λ e. n (sym e)) ∙ others j n,
      only,
    ) in
    (
      holds,
      Holds-find t t'' dset_id size pbuf i holds,
      Holds-IsUnique t t'' dset_id size pbuf i u holds,
    )

-- `dset_get` of an identifier other than 0, in a table without repeated identifiers, where
-- A_MALLOC gives a buffer: either the slot that it returns has the identifier, the length and the
-- buffer, the other slots are as they were, a search finds this slot, and identifiers stay unique;
-- or it returns NULL and changes nothing, and then no slot has the identifier and none is free.
pub dset_get_lem :
    (t : Table) (dset_id size : ℕ) (pbuf : List ℕ)
    → IsUnique t
    → dset_id ≢ 0
    → Gets t dset_id size pbuf (dset_get (some pbuf) t dset_id size)
unfolding dset_get dset_find
dset_get_lem t dset_id size pbuf u z =
    renewed t dset_id size pbuf _ u
      (taken t dset_id _ u z (first_slot-IsFirst (λ s. s.dset_id == dset_id) t))
