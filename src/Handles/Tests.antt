-- ===== src/Handles/Tests.antt =====
-- Tests of the handles on a target that takes every request, and instances of their theorems.
use atheros_wifi.Prelude.{
  Mem, Option, store, ◌^◌, ◌-◌, false, ℕ, ◌+◌, ◌≡◌, refl, ◌≢◌, none, some, [], ◌∷◌, arith,
}
use atheros_wifi.Handles.{
  Completion, Handle, unused, Handles, Remote, handle_at, dset_find_handle, find_from, free_handle,
  dset_close_handle, dset_insert_handle, remote_op, on_handle, qcom_dset_create, qcom_dset_open,
  qcom_dset_commit, qcom_dset_close, qcom_dset_size, qcom_dset_delete, qcom_dset_write,
  qcom_dset_read, too_long,
}
use atheros_wifi.Handles.Ends.{Opens, qcom_dset_open_lem, qcom_dset_close-twice}

-- It counts the requests.
abbrev target : Remote ℕ
target op h n = (0, h, n + 1)

abbrev call : Completion
call = record { cb = 500; cb_args = 6 }

abbrev open_handle : Handle
open_handle = record unused { dset_id = 4; data_ptr = some 900 }

abbrev two : Handles ℕ
two = record { handles = open_handle ∷ unused ∷ []; freed = []; far = 0 }

abbrev full : Handles ℕ
full = record { handles = open_handle ∷ record unused { dset_id = 5 } ∷ []; freed = []; far = 0 }

-- A creation gives out the free handle, with the length.
created : (qcom_dset_create target two 9 1 64 0 call).1 ≡ some 1
unfolding qcom_dset_create dset_find_handle dset_insert_handle remote_op find_from free_handle
created = refl

-- Another handle than the first is not found: where it is the only place, the opening gives none.
second_not_found : qcom_dset_open target full 5 0 call ≡ (0, none, full)
unfolding qcom_dset_open dset_find_handle dset_insert_handle find_from free_handle
second_not_found = refl

committed : (qcom_dset_commit target two 0 call).1.freed ≡ 900 ∷ []
unfolding qcom_dset_commit on_handle remote_op dset_close_handle
committed = refl

sized : (qcom_dset_size target two 0 call).1.far ≡ 1
unfolding qcom_dset_size on_handle remote_op
sized = refl

-- A deletion leaves the handle in use.
deleted : (handle_at (qcom_dset_delete target two 9 0 call).1 1).dset_id ≡ 9
unfolding qcom_dset_delete dset_find_handle dset_insert_handle remote_op find_from free_handle
deleted = refl

qcom_dset_open_lem_example :
    ((handle_at two 0).dset_id ≡ 9 → qcom_dset_open target two 9 3 call ≡ (0, some 0, two))
    × ((handle_at two 0).dset_id ≢ 9
        → Opens target two 9 3 call (qcom_dset_open target two 9 3 call))
qcom_dset_open_lem_example = qcom_dset_open_lem target two 9 3 call

qcom_dset_close-twice_example :
    let t' = (qcom_dset_close target two 0 call).1 in
    ((handle_at t' 0).dset_id ≡ 0)
    × (t'.freed ≡ 900 ∷ [])
    × ((qcom_dset_close target t' 0 call).1.freed ≡ 900 ∷ 900 ∷ [])
qcom_dset_close-twice_example =
    qcom_dset_close-twice target two 0 900 call (λ op h d. refl) (omega arith) refl

-- Byte `a` is at the address `a`.
abbrev here : Handles (Mem × ℕ)
here = record { handles = open_handle ∷ []; freed = []; far = ((λ a. a), 0) }

abbrev far_target : Remote (Mem × ℕ)
far_target op h (m, n) = (0, h, (m, n + 1))

abbrev byte : ℕ → Option (ℕ × Handles (Mem × ℕ)) → ℕ
byte a none = 0
byte a (some (status, t)) = t.far.0 a

sent : byte 921 (qcom_dset_write far_target none here 0 70 2 0 0 call) ≡ 71
unfolding qcom_dset_write remote_op store
sent = refl

-- One byte more than the buffer holds behind the head is refused.
refused :
    qcom_dset_write far_target none here 0 70 1481 0 0 call
    ≡ some
        (0, record here { handles = record open_handle { length = 1481; completion = call } ∷ [] })
unfolding qcom_dset_write
refused = refl

-- The 32-bit sum wraps around: a length just below 2 ^ 32 is not refused.
wraps : too_long (2 ^ 32 - 20) 20 ≡ false
wraps = refl

fetched : byte 71 (qcom_dset_read far_target none here 0 70 2 0 call) ≡ 901
unfolding qcom_dset_read remote_op store
fetched = refl
