-- ===== src/Handles/Ends.antt =====
-- What opening and closing a handle leave.
use atheros_wifi.Prelude.{
  ℕ, zero, suc, ◌<◌, ◌≡◌, refl, sym, ap, ◌∙◌, ◌≢◌, inl, inr, true, Option, none, some, List, [],
  ◌∷◌, ◌++◌, arith, ◌==◌, ==_ne, Bool-cases, length, get_or, set, length-set, get_or-set_self,
  get_or-set_ne,
}
use mathlib.Core.Path.{subst}
use atheros_wifi.Handles.{
  op_open, op_close, Completion, Handle, unused, Handles, Remote, handle_at, find_from,
  dset_find_handle, dset_close_handle, free_handle, filled, dset_insert_handle, remote_op, open_on,
  found_or_opened, released, qcom_dset_open, on_handle, qcom_dset_close,
}

-- The first handle that is free; or none is.
abbrev IsFree : List Handle → Option ℕ → Type 0
IsFree hs none = (j : ℕ) → j < length hs → (get_or hs j unused).dset_id ≢ 0
IsFree hs (some i) =
    (i < length hs)
    × ((get_or hs i unused).dset_id ≡ 0)
    × ((j : ℕ) → j < i → (get_or hs j unused).dset_id ≢ 0)

cons-IsFree :
    (h : Handle) (hs : List Handle) (o : Option ℕ)
    → h.dset_id ≢ 0
    → IsFree hs o
    → IsFree (h ∷ hs) (elim o [ some i ↦ some (suc i) | none ↦ none ])
cons-IsFree h hs none n f = used
  where
    used : (j : ℕ) → j < suc (length hs) → (get_or (h ∷ hs) j unused).dset_id ≢ 0
    used zero k = n
    used (suc j) k = f j (omega arith)
cons-IsFree h hs (some i) n (k, y, f) = (omega arith, y, before)
  where
    before : (j : ℕ) → j < suc i → (get_or (h ∷ hs) j unused).dset_id ≢ 0
    before zero lt = n
    before (suc j) lt = f j (omega arith)

free_handle-IsFree : (hs : List Handle) → IsFree hs (free_handle hs)
unfolding free_handle
free_handle-IsFree [] = λ j k. absurd (omega arith)
free_handle-IsFree (h ∷ hs) = elim (Bool-cases (h.dset_id == 0)) [
  | inl y ↦
      let is : h.dset_id ≡ 0 = ground arith in rw y (omega arith, is, λ j k. absurd (omega arith))
  | inr n ↦
      let used : h.dset_id ≢ 0 = ground arith in
      rw n (cons-IsFree h hs (free_handle hs) used (free_handle-IsFree hs))
]

find_from-absent :
    (n : ℕ) (h : Handle) (dset_id : ℕ) → h.dset_id ≢ dset_id → find_from n h dset_id ≡ none
unfolding find_from
find_from-absent zero h dset_id ne = refl
find_from-absent (suc n) h dset_id ne =
    rw (==_ne h.dset_id dset_id ne) (find_from-absent n h dset_id ne)

find_from-present :
    (n : ℕ) (h : Handle) (dset_id : ℕ) → h.dset_id ≡ dset_id → find_from (suc n) h dset_id ≡ some 0
unfolding find_from
find_from-present n h dset_id e = let y : (h.dset_id == dset_id) ≡ true = ground arith in rw y refl

module _ {D : Type 0} (remote : Remote D) where
  -- What is there after an opening with the status and the handle: no handle is free, and nothing is
  -- changed; or the first free one is taken, and the target is asked about it.
  abbrev pub Opens :
      Handles D → (dset_id flags : ℕ) → Completion → ℕ × Option ℕ × Handles D → Type 0
  Opens t dset_id flags cb (status, none, t') =
      (status ≡ 0) × (t' ≡ t) × ((j : ℕ) → j < length t.handles → (handle_at t j).dset_id ≢ 0)
  Opens t dset_id flags cb (status, some i, t') =
      let h = record (handle_at t i) {
        dset_id = dset_id;
        flags = flags;
        completion = cb;
        data_ptr = none;
      } in
      (i < length t.handles)
      × ((handle_at t i).dset_id ≡ 0)
      × ((j : ℕ) → j < i → (handle_at t j).dset_id ≢ 0)
      × ((status, handle_at t' i, t'.far) ≡ remote op_open h t.far)
      × ((j : ℕ) → j ≢ i → handle_at t' j ≡ handle_at t j)
      × (t'.freed ≡ t.freed)

  opened :
      (t : Handles D) (dset_id flags : ℕ) (cb : Completion) (o : Option ℕ)
      → IsFree t.handles o
      → Opens t dset_id flags cb (open_on remote (filled t dset_id flags cb o))
  unfolding remote_op
  opened t dset_id flags cb none f = (refl, refl, f)
  opened t dset_id flags cb (some i) (k, y, f) =
      let h = record (handle_at t i) {
        dset_id = dset_id;
        flags = flags;
        completion = cb;
        data_ptr = none;
      } in
      let hs = set t.handles i h in
      let within : i < length hs = subst (λ n. i < n) (sym (length-set t.handles i h)) k in
      let seen : get_or hs i unused ≡ h = get_or-set_self t.handles i h unused k in
      let r = remote op_open (get_or hs i unused) t.far in
      (
        k,
        y,
        f,
        ap (λ x. (r.0, x, r.2)) (get_or-set_self hs i r.1 unused within)
            ∙ ap (λ x. remote op_open x t.far) seen,
        λ j n.
            get_or-set_ne hs i j r.1 unused (λ e. n (sym e))
            ∙ get_or-set_ne t.handles i j h unused (λ e. n (sym e)),
        refl,
      )

  -- If the first handle has the identifier, `qcom_dset_open` gives it out and changes nothing.
  -- Otherwise, even if another handle has it: the first free handle gets the identifier, the flags
  -- and the callback, without a buffer, the target is asked about it, and the other handles are as
  -- they were; or no handle is free, nothing changes, and the status is A_OK all the same.
  pub qcom_dset_open_lem :
      (t : Handles D) (dset_id flags : ℕ) (cb : Completion)
      → ((handle_at t 0).dset_id ≡ dset_id
          → qcom_dset_open remote t dset_id flags cb ≡ (0, some 0, t))
        × ((handle_at t 0).dset_id ≢ dset_id
            → Opens t dset_id flags cb (qcom_dset_open remote t dset_id flags cb))
  unfolding qcom_dset_open dset_find_handle dset_insert_handle
  qcom_dset_open_lem t dset_id flags cb = (
    (λ e.
        ap (found_or_opened remote t dset_id flags cb)
          (find_from-present 7 (handle_at t 0) dset_id e)),
    (λ n.
        subst (λ o. Opens t dset_id flags cb (found_or_opened remote t dset_id flags cb o))
          (sym (find_from-absent 8 (handle_at t 0) dset_id n))
          (opened t dset_id flags cb (free_handle t.handles) (free_handle-IsFree t.handles))),
  )

  closed :
      (t : Handles D) (i p : ℕ) (cb : Completion)
      → ((op : _) (h : Handle) (d : D) → (remote op h d).1.data_ptr ≡ h.data_ptr)
      → i < length t.handles
      → (handle_at t i).data_ptr ≡ some p
      → let t' = (qcom_dset_close remote t i cb).1 in
        (length t'.handles ≡ length t.handles)
        × ((handle_at t' i).dset_id ≡ 0)
        × ((handle_at t' i).data_ptr ≡ some p)
        × (t'.freed ≡ t.freed ++ p ∷ [])
  unfolding qcom_dset_close on_handle remote_op dset_close_handle
  closed t i p cb keeps k e =
      let h = record (handle_at t i) { completion = cb } in
      let hs = set t.handles i h in
      let r = remote op_close (get_or hs i unused) t.far in
      let hs' = set hs i r.1 in
      let l : length hs ≡ length t.handles = length-set t.handles i h in
      let l' : length hs' ≡ length t.handles = length-set hs i r.1 ∙ l in
      let there : get_or hs' i unused ≡ r.1 = get_or-set_self hs i r.1 unused (omega arith) in
      let ptr : (get_or hs' i unused).data_ptr ≡ some p =
        ap (λ (x : Handle). x.data_ptr) there
        ∙ keeps op_close (get_or hs i unused) t.far
        ∙ ap (λ (x : Handle). x.data_ptr) (get_or-set_self t.handles i h unused k)
        ∙ e in
      let last = record (get_or hs' i unused) { dset_id = 0 } in
      let self : get_or (set hs' i last) i unused ≡ last =
        get_or-set_self hs' i last unused (omega arith) in
      (
        length-set hs' i last ∙ l',
        ap (λ (x : Handle). x.dset_id) self,
        ap (λ (x : Handle). x.data_ptr) self ∙ ptr,
        ap (released t.freed) ptr,
      )

  -- Where the target leaves buffers alone, `qcom_dset_close` of a handle with a buffer frees the
  -- handle and the buffer, but the pointer stays: a second close frees the same buffer again.
  pub qcom_dset_close-twice :
      (t : Handles D) (i p : ℕ) (cb : Completion)
      → ((op : _) (h : Handle) (d : D) → (remote op h d).1.data_ptr ≡ h.data_ptr)
      → i < length t.handles
      → (handle_at t i).data_ptr ≡ some p
      → let t' = (qcom_dset_close remote t i cb).1 in
        ((handle_at t' i).dset_id ≡ 0)
        × (t'.freed ≡ t.freed ++ p ∷ [])
        × ((qcom_dset_close remote t' i cb).1.freed ≡ (t.freed ++ p ∷ []) ++ p ∷ [])
  qcom_dset_close-twice t i p cb keeps k e =
      let t' = (qcom_dset_close remote t i cb).1 in
      let (l, free, ptr, log) = closed t i p cb keeps k e in
      let (l2, free2, ptr2, log2) = closed t' i p cb keeps (subst (λ n. i < n) (sym l) k) ptr in
      (free, log, log2 ∙ ap (λ x. x ++ p ∷ []) log)
