-- ===== src/Netbuf/Buffer.antt =====
-- One A_NETBUF: the four pointers of its built-in memory, its fragments and its transport object.
pub mod Room
pub mod Bytes
pub mod Fragments
mod Tests
use atheros_wifi.Prelude.{
  [], ℕ, zero, suc, ◌+◌, ◌-◌, Bool, Option, none, some, List, ◌∷◌, ltb, leb, ◌==◌, if◌then◌else◌,
  length, get_or, set, Outcome, ran, halted, ◌>>=◌, ◌>>◌, add32, sub32, Mem, store,
}

abbrev pub ar6000_data_offset : ℕ
ar6000_data_offset = 64

abbrev pub max_buf_frags : ℕ
max_buf_frags = 2

-- `DB_FRAG`
pub record Frag : Type 0 where
  pub length : ℕ
  pub payload : ℕ

abbrev pub no_frag : Frag
no_frag = record { length = 0; payload = 0 }

-- The callbacks that the driver puts into a request.
pub data Callback : Type 0 where
  rx_complete tx_complete ep0_tx_complete : Callback

-- `A_TRANSPORT_OBJ`
pub record Trans : Type 0 where
  pub lookahead : ℕ
  pub transfer_length : ℕ
  pub address : ℕ
  pub cmd : ℕ
  pub credits : ℕ
  pub epid : ℕ
  pub status : ℕ
  pub cb : Option Callback

abbrev pub zero_trans : Trans
zero_trans = record {
  lookahead = 0;
  transfer_length = 0;
  address = 0;
  cmd = 0;
  credits = 0;
  epid = 0;
  status = 0;
  cb = none;
}

-- `A_NETBUF`: `start` is its `data`, `finish` its `end`; `native_orig` holds the fragments of the
-- caller's DRV_BUFFER. `context` and `queueLink` are the business of the driver and of the queue.
pub record Netbuf : Type 0 where
  pub native : List Frag
  pub num_frags : ℕ
  pub native_orig : Option (List Frag)
  pub head : ℕ
  pub start : ℕ
  pub tail : ℕ
  pub finish : ℕ
  pub tx_pool_id : ℕ
  pub rx_pool_id : ℕ
  pub trans : Trans

-- A_MEMZERO of the whole structure.
abbrev pub zeroed : Netbuf
zeroed = record {
  native = no_frag ∷ no_frag ∷ [];
  num_frags = 0;
  native_orig = none;
  head = 0;
  start = 0;
  tail = 0;
  finish = 0;
  tx_pool_id = 0;
  rx_pool_id = 0;
  trans = zero_trans;
}

-- `a_netbuf_configure`: `none` for a NULL buffer.
unfoldable pub configure : Option ℕ → ℕ → ℕ → ℕ → Netbuf
configure none headroom length size = zeroed
configure (some buffer) headroom length size = record zeroed {
  head = buffer;
  start = add32 buffer headroom;
  tail = add32 buffer (headroom + length);
  finish = add32 buffer size;
}

-- `a_netbuf_init`; `native.context` is left out.
unfoldable pub init : Netbuf → Netbuf
init b = record b {
  tail = add32 b.head ar6000_data_offset;
  start = add32 b.head ar6000_data_offset;
  native = set b.native 0 (record { payload = b.head; length = sub32 b.finish b.head });
  rx_pool_id = 1;
}

-- The pointers that `a_netbuf_alloc` and `a_netbuf_reinit` set over the memory at `base`.
abbrev pub laid_out : Netbuf → ℕ → ℕ → Netbuf
laid_out b base size =
    let total = add32 ar6000_data_offset size in
    record b {
      native = set b.native 0 (record { length = total; payload = base });
      head = base;
      finish = add32 base total;
      tail = add32 base ar6000_data_offset;
      start = add32 base ar6000_data_offset;
      trans = zero_trans;
      tx_pool_id = 0;
      rx_pool_id = 0;
    }

-- `a_netbuf_alloc`: what the two calls of A_MALLOC return, the structure's first. Where the second
-- fails the structure is freed again.
unfoldable pub alloc : Option ℕ → Option ℕ → ℕ → Option Netbuf
alloc none memory size = none
alloc (some _) none size = none
alloc (some _) (some base) size = some (laid_out zeroed base size)

pub alloc_raw : Option ℕ → Option ℕ → ℕ → Option Netbuf
alloc_raw none memory size = none
alloc_raw (some _) none size = none
alloc_raw (some _) (some base) size = some (record zeroed {
  native = set zeroed.native 0 (record { length = size; payload = base });
  head = base;
  tail = base;
  start = base;
  finish = add32 base size;
})

-- `a_netbuf_reinit` lays the buffer out anew over the memory of its first fragment.
pub reinit : Netbuf → ℕ → Netbuf
reinit b size = laid_out b (get_or b.native 0 no_frag).payload size

pub set_rx_pool : Netbuf → Netbuf
set_rx_pool b = record b { rx_pool_id = 1 }

pub set_tx_pool : Netbuf → Netbuf
set_tx_pool b = record b { tx_pool_id = 1 }

-- What `a_netbuf_free` does with a buffer.
pub data Release : Type 0 where
  to_rx_pool to_tx_pool txpkt_free : Release
  freed : (memory : Bool) → Release

pub free : Netbuf → Release
free b =
    if ltb 0 b.rx_pool_id
    then to_rx_pool
    else (if ltb 0 b.tx_pool_id
        then to_tx_pool
        else elim b.native_orig [ some _ ↦ txpkt_free | none ↦ freed (ltb 0 b.head) ])

-- The fragments `i` to `i + n - 1` of a table; one past its end counts as empty.
unfoldable pub sum_frags : List Frag → ℕ → ℕ → ℕ → ℕ
sum_frags frags i zero len = len
sum_frags frags i (suc n) len =
    sum_frags frags (i + 1) n (add32 len (get_or frags i no_frag).length)

-- `a_netbuf_to_len`
unfoldable pub to_len : Netbuf → ℕ
to_len b = elim b.native_orig [
  | some orig ↦ sum_frags orig 0 b.num_frags (sub32 b.tail b.start)
  | none ↦ sum_frags b.native 1 b.num_frags (sub32 b.tail b.start)
]

-- `a_netbuf_get_fragment`: the address and length, or `none` where it returns NULL.
unfoldable pub get_fragment : Netbuf → ℕ → Option Frag
get_fragment b index =
    if index == 0
    then some (record { payload = b.start; length = sub32 b.tail b.start })
    else (if leb index b.num_frags
        then (elim b.native_orig [
          | some orig ↦ some (get_or orig (index - 1) no_frag)
          | none ↦ some (get_or b.native index no_frag)
        ])
        else none)

pub append_fragment : Netbuf → Frag → Outcome Netbuf
append_fragment b frag =
    if ltb b.num_frags (max_buf_frags - 1)
    then ran
        (record b { num_frags = b.num_frags + 1; native = set b.native (b.num_frags + 1) frag })
    else halted

unfoldable pub headroom : Netbuf → ℕ
headroom b = sub32 b.start b.head

pub tailroom : Netbuf → ℕ
tailroom b = sub32 b.finish b.tail

-- The operations take a QOSAL_INT32 `len` as its bit pattern: C compares it as a QOSAL_UINT32.
unfoldable pub push : Netbuf → ℕ → Outcome Netbuf
push b len =
    if ltb (sub32 b.start b.head) len then halted else ran (record b { start = sub32 b.start len })

unfoldable pub put : Netbuf → ℕ → Outcome Netbuf
put b len =
    if ltb (sub32 b.finish b.tail) len then halted else ran (record b { tail = add32 b.tail len })

unfoldable pub pull : Netbuf → ℕ → Outcome Netbuf
pull b len =
    if ltb (sub32 b.tail b.start) len then halted else ran (record b { start = add32 b.start len })

pub trim : Netbuf → ℕ → Outcome Netbuf
trim b len =
    if ltb (sub32 b.tail b.start) len then halted else ran (record b { tail = sub32 b.tail len })

-- `a_netbuf_push_data` and `a_netbuf_put_data` of the `len` bytes `src`.
pub push_data : Mem → Netbuf → List ℕ → Outcome (Mem × Netbuf)
push_data m b src = do b' ← push b (length src); ran (store m b'.start src, b')

pub put_data : Mem → Netbuf → List ℕ → Outcome (Mem × Netbuf)
put_data m b src = do b' ← put b (length src); ran (store m b.tail src, b')
