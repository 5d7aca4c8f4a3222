-- ===== src/Dset.antt =====
-- common_src/storerecall/dset.c: the table of data sets that the host keeps for the target.
pub mod Table
pub mod Access
pub mod Cursor
mod Tests
use atheros_wifi.Prelude.{
  [], ℕ, zero, suc, ◌+◌, Bool, true, false, ◌&&◌, Option, none, some, List, ◌∷◌, ◌++◌, ltb, leb,
  ◌==◌, if◌then◌else◌, length, get_or, set, take, drop, add32, sub32,
}

abbrev pub max_dset_size : ℕ
max_dset_size = 16

-- `HOST_DSET`: an identifier of 0 marks a free slot. The buffer is that of A_MALLOC, `none` for a
-- NULL pointer.
pub record HostDset : Type 0 where
  pub dset_id : ℕ
  pub length : ℕ
  pub data_ptr : Option (List ℕ)

abbrev pub free_slot : HostDset
free_slot = record { dset_id = 0; length = 0; data_ptr = none }

-- `host_dsets`, of `max_dset_size` slots
abbrev pub Table : Type 0
Table = List HostDset

-- The loops over the table: the first slot that passes the test.
pub first_slot : (HostDset → Bool) → Table → Option ℕ
first_slot p [] = none
first_slot p (s ∷ ss) =
    let rest = first_slot p ss in
    if p s then some 0 else (elim rest [ some i ↦ some (suc i) | none ↦ none ])

-- `dset_find` and `dset_insert` return a pointer into the table, or NULL: here, the index.
pub dset_find : Table → ℕ → Option ℕ
dset_find t dset_id = first_slot (λ s. s.dset_id == dset_id) t

abbrev pub slot : Table → ℕ → HostDset
slot t i = get_or t i free_slot

abbrev pub insert_at : Table → ℕ → Option ℕ → Table × Option ℕ
insert_at t dset_id none = (t, none)
insert_at t dset_id (some i) =
    (set t i (record (slot t i) { dset_id = dset_id; data_ptr = none }), some i)

pub dset_insert : Table → ℕ → Table × Option ℕ
dset_insert t dset_id = insert_at t dset_id (first_slot (λ s. s.dset_id == 0) t)

-- The end of `dset_get`: the old buffer is freed and A_MALLOC gives a new one, or NULL.
abbrev pub renew : Option (List ℕ) → ℕ → Table × Option ℕ → Table × Option ℕ
renew memory length (t, none) = (t, none)
renew none length (t, some i) = (set t i (record (slot t i) { dset_id = 0; data_ptr = none }), none)
renew (some pbuf) length (t, some i) =
    (set t i (record (slot t i) { length = length; data_ptr = some pbuf }), some i)

abbrev pub found_or_inserted : Table → ℕ → Option ℕ → Table × Option ℕ
found_or_inserted t dset_id (some i) = (t, some i)
found_or_inserted t dset_id none = dset_insert t dset_id

pub dset_get : Option (List ℕ) → Table → ℕ → ℕ → Table × Option ℕ
dset_get memory t dset_id length =
    renew memory length (found_or_inserted t dset_id (dset_find t dset_id))

-- The length that `dset_write` and `dset_read` copy. The sums and differences are those of uint_32.
abbrev pub wrt_len : HostDset → ℕ → ℕ → ℕ
wrt_len s offset length =
    if ltb s.length (add32 offset length) then sub32 s.length offset else length

-- `none` is a copy outside the buffer, or from outside the caller's.
pub dset_write : HostDset → List ℕ → ℕ → ℕ → Option (ℕ × HostDset)
dset_write s p_data offset length =
    let n = wrt_len s offset length in
    elim s.data_ptr [
      | none ↦ none
      | some buffer ↦
          if leb (offset + n) (atheros_wifi.Prelude.length buffer)
            && leb n (atheros_wifi.Prelude.length p_data)
          then some (
            n,
            record s {
              data_ptr = some (take offset buffer ++ (take n p_data ++ drop (offset + n) buffer));
            },
          )
          else none
    ]

pub dset_read : HostDset → ℕ → ℕ → Option (ℕ × List ℕ)
dset_read s offset length =
    let n = wrt_len s offset length in
    elim s.data_ptr [
      | none ↦ none
      | some buffer ↦
          if leb (offset + n) (atheros_wifi.Prelude.length buffer)
          then some (n, take n (drop offset buffer))
          else none
    ]

-- `dset_fill`: the identifiers and lengths, of at most `max_dset_count` slots. The count is the
-- length of the list.
pub dset_fill : Table → ℕ → List (ℕ × ℕ)
dset_fill [] max_dset_count = []
dset_fill (s ∷ ss) zero = []
dset_fill (s ∷ ss) (suc n) =
    let skipped = dset_fill ss (suc n) in
    let taken = dset_fill ss n in if s.dset_id == 0 then skipped else (s.dset_id, s.length) ∷ taken

abbrev pub live : HostDset → Bool
live s = if s.dset_id == 0 then false else true

-- The cursor `next_dset_ndx`, and the slot that is returned.
abbrev pub advance : ℕ → ℕ → Option ℕ → ℕ × Option ℕ
advance next base none = (next, none)
advance next base (some i) = (base + i + 1, some (base + i))

pub dset_get_first : Table → ℕ → ℕ × Option ℕ
dset_get_first t next = advance next 0 (first_slot live t)

pub dset_get_next : Table → ℕ → ℕ × Option ℕ
dset_get_next t next = advance next next (first_slot live (drop next t))
