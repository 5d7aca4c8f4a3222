-- ===== src/Handles.antt =====
-- common_src/storerecall/dset_api.c: the handles of the data sets that the target keeps.
pub mod Ends
mod Tests
use atheros_wifi.Prelude.{
  ℕ, zero, suc, Bool, true, false, Option, none, some, List, [], ◌∷◌, ◌++◌, ◌==◌, if◌then◌else◌,
  get_or, set, ltb, add32, Mem, load, store, ◌+◌,
}

abbrev pub max_host_dset_size : ℕ
max_host_dset_size = 8

-- `DSET_OP`
pub data DsetOp : Type 0 where
  op_create op_open op_read op_write op_commit op_close op_size op_delete : DsetOp

-- The callback and its argument.
pub record Completion : Type 0 where
  pub cb : ℕ
  pub cb_args : ℕ

-- `HOST_DSET_HANDLE`, of which an identifier of 0 marks a free one. `data_ptr` is an address, `none`
-- for NULL.
pub record Handle : Type 0 where
  pub dset_id : ℕ
  pub media_id : ℕ
  pub flags : ℕ
  pub offset : ℕ
  pub length : ℕ
  pub completion : Completion
  pub data_ptr : Option ℕ

abbrev pub unused : Handle
unused = record {
  dset_id = 0;
  media_id = 0;
  flags = 0;
  offset = 0;
  length = 0;
  completion = record { cb = 0; cb_args = 0 };
  data_ptr = none;
}

-- `dset_handles`; `freed` has the addresses that A_FREE was given, in order, and `far` what
-- `remote_dset_op` changes apart from the handle.
pub record Handles (D : Type 0) : Type 0 where
  pub handles : List Handle
  pub freed : List ℕ
  pub far : D

-- `remote_dset_op`, of which there is no source: it gives a status.
abbrev pub Remote : Type 0 → Type 0
Remote D = DsetOp → Handle → D → ℕ × Handle × D

abbrev pub handle_at : {D : Type 0} → Handles D → ℕ → Handle
handle_at t i = get_or t.handles i unused

-- The loop of `dset_find_handle`, which counts its rounds and looks at the first handle in each.
unfoldable pub find_from : (rounds : ℕ) → Handle → ℕ → Option ℕ
find_from zero h dset_id = none
find_from (suc n) h dset_id =
    let rest = find_from n h dset_id in if h.dset_id == dset_id then some 0 else rest

pub dset_find_handle : {D : Type 0} → Handles D → ℕ → Option ℕ
dset_find_handle t dset_id = find_from max_host_dset_size (handle_at t 0) dset_id

-- A_FREE of a buffer that is not NULL.
abbrev pub released : List ℕ → Option ℕ → List ℕ
released freed none = freed
released freed (some p) = freed ++ p ∷ []

-- `dset_close_handle`: the pointer to the freed buffer stays.
pub dset_close_handle : {D : Type 0} → Handles D → ℕ → Handles D
dset_close_handle t i =
    let h = handle_at t i in
    record t {
      handles = set t.handles i (record h { dset_id = 0 });
      freed = released t.freed h.data_ptr;
    }

-- The first free handle.
unfoldable pub free_handle : List Handle → Option ℕ
free_handle [] = none
free_handle (h ∷ hs) =
    let rest = free_handle hs in
    if h.dset_id == 0 then some 0 else (elim rest [ some i ↦ some (suc i) | none ↦ none ])

abbrev pub filled :
    {D : Type 0} → Handles D → (dset_id flags : ℕ) → Completion → Option ℕ → Handles D × Option ℕ
filled t dset_id flags cb none = (t, none)
filled t dset_id flags cb (some i) =
    let h = record (handle_at t i) {
      dset_id = dset_id;
      flags = flags;
      completion = cb;
      data_ptr = none;
    } in
    (record t { handles = set t.handles i h }, some i)

pub dset_insert_handle :
    {D : Type 0} → Handles D → (dset_id flags : ℕ) → Completion → Handles D × Option ℕ
dset_insert_handle t dset_id flags cb = filled t dset_id flags cb (free_handle t.handles)

-- The call of the target for a handle.
unfoldable pub remote_op : {D : Type 0} → Remote D → DsetOp → Handles D → ℕ → ℕ × Handles D
remote_op remote op t i =
    let (status, h, far) = remote op (handle_at t i) t.far in
    (status, record t { handles = set t.handles i h; far = far })

-- A_FALSE, which is A_OK where it is returned as a status.
abbrev pub a_false : ℕ
a_false = 0

module _ {D : Type 0} (remote : Remote D) where
  abbrev pub create_on : (media_id length : ℕ) → Handles D × Option ℕ → ℕ × Option ℕ × Handles D
  create_on media_id length (t, none) = (a_false, none, t)
  create_on media_id length (t, some i) =
      let h = record (handle_at t i) { length = length; media_id = media_id } in
      let (status, t') = remote_op remote op_create (record t { handles = set t.handles i h }) i in
      (status, some i, t')

  -- `qcom_dset_create`: the status, the handle that it gives out, and the table.
  pub qcom_dset_create :
      Handles D → (dset_id media_id length flags : ℕ) → Completion → ℕ × Option ℕ × Handles D
  qcom_dset_create t dset_id media_id length flags cb = elim (dset_find_handle t dset_id) [
    | some i ↦ (a_false, some i, t)
    | none ↦ create_on media_id length (dset_insert_handle t dset_id flags cb)
  ]

  abbrev pub open_on : Handles D × Option ℕ → ℕ × Option ℕ × Handles D
  open_on (t, none) = (a_false, none, t)
  open_on (t, some i) = let (status, t') = remote_op remote op_open t i in (status, some i, t')

  abbrev pub found_or_opened :
      Handles D → (dset_id flags : ℕ) → Completion → Option ℕ → ℕ × Option ℕ × Handles D
  found_or_opened t dset_id flags cb (some i) = (0, some i, t)
  found_or_opened t dset_id flags cb none = open_on (dset_insert_handle t dset_id flags cb)

  -- `qcom_dset_open`
  pub qcom_dset_open : Handles D → (dset_id flags : ℕ) → Completion → ℕ × Option ℕ × Handles D
  qcom_dset_open t dset_id flags cb =
      found_or_opened t dset_id flags cb (dset_find_handle t dset_id)

  -- The operation on a handle that `qcom_dset_commit`, `qcom_dset_close` and `qcom_dset_size` share.
  unfoldable pub on_handle : DsetOp → Handles D → ℕ → Completion → ℕ × Handles D
  on_handle op t i cb =
      let h = record (handle_at t i) { completion = cb } in
      remote_op remote op (record t { handles = set t.handles i h }) i

  pub qcom_dset_commit : Handles D → ℕ → Completion → ℕ × Handles D
  qcom_dset_commit t i cb =
      let (status, t') = on_handle op_commit t i cb in (status, dset_close_handle t' i)

  pub qcom_dset_close : Handles D → ℕ → Completion → ℕ × Handles D
  qcom_dset_close t i cb =
      let (status, t') = on_handle op_close t i cb in (status, dset_close_handle t' i)

  pub qcom_dset_size : Handles D → ℕ → Completion → ℕ × Handles D
  qcom_dset_size t i cb = on_handle op_size t i cb

  abbrev pub delete_on : Handles D × Option ℕ → ℕ × Handles D
  delete_on (t, none) = (a_false, t)
  delete_on (t, some i) = remote_op remote op_delete t i

  pub qcom_dset_delete : Handles D → (dset_id flags : ℕ) → Completion → ℕ × Handles D
  qcom_dset_delete t dset_id flags cb = elim (dset_find_handle t dset_id) [
    | none ↦ delete_on (dset_insert_handle t dset_id flags cb)
    | some i ↦
        let h = record (handle_at t i) { completion = cb; dset_id = dset_id; flags = flags } in
        remote_op remote op_delete (record t { handles = set t.handles i h }) i
  ]

-- The buffer of a handle: its own, or the one that A_MALLOC gives.
abbrev pub buffer_of : (malloc : Option ℕ) → Option ℕ → Option ℕ
buffer_of malloc none = malloc
buffer_of malloc (some p) = some p

-- The largest request: the sum is that of 32-bit integers.
abbrev pub too_long : (length head : ℕ) → Bool
too_long length head = ltb 1500 (add32 length head)

module _ {D : Type 0} (remote : Remote (Mem × D)) (malloc : Option ℕ) where
  -- The bytes behind DSET_WRITE_HEAD_SIZE; `none` is a copy to a NULL pointer.
  abbrev pub write_on :
      Handles (Mem × D) → ℕ → Handle → (buffer : ℕ) → Option ℕ → Option (ℕ × Handles (Mem × D))
  write_on t i h buffer none = none
  write_on t i h buffer (some p) =
      let (mem, rest) = t.far in
      let mem' = store mem (p + 20) (load mem buffer h.length) in
      let hs = set t.handles i (record h { data_ptr = some p }) in
      some (remote_op remote op_write (record t { handles = hs; far = (mem', rest) }) i)

  pub qcom_dset_write :
      Handles (Mem × D)
      → (i buffer length offset flags : ℕ) → Completion
      → Option (ℕ × Handles (Mem × D))
  qcom_dset_write t i buffer length offset flags cb =
      let h = record (handle_at t i) {
        offset = offset;
        length = length;
        flags = flags;
        completion = cb;
      } in
      if too_long length 20
      then some (0, record t { handles = set t.handles i h })
      else write_on t i h buffer (buffer_of malloc h.data_ptr)

  -- The bytes that the target left in the buffer go to the caller.
  abbrev pub copied_out :
      (buffer length i : ℕ) → Option ℕ → ℕ × Handles (Mem × D) → Option (ℕ × Handles (Mem × D))
  copied_out buffer length i none r = none
  copied_out buffer length i (some p) (status, t) =
      let (mem, rest) = t.far in
      some (status, record t { far = (store mem buffer (load mem p length), rest) })

  pub qcom_dset_read :
      Handles (Mem × D) → (i buffer length offset : ℕ) → Completion → Option (ℕ × Handles (Mem × D))
  qcom_dset_read t i buffer length offset cb =
      let h = record (handle_at t i) { offset = offset; length = length; completion = cb } in
      let h' = record h { data_ptr = buffer_of malloc h.data_ptr } in
      let (status, t') = remote_op remote op_read (record t { handles = set t.handles i h' }) i in
      if too_long length 17
      then some (0, record t { handles = set t.handles i h })
      else copied_out buffer length i (handle_at t' i).data_ptr (status, t')
