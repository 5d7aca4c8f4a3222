-- ===== src/Netbuf/Buffer/Tests.antt =====
-- Runs on one buffer, and the theorems at it.
use atheros_wifi.Prelude.{true, ◌%◌, ◌^◌, ◌≡◌, refl, none, some, [], ◌∷◌, arith, Mem}
use atheros_wifi.Netbuf.Buffer.{
  configure, init, reinit, set_rx_pool, set_tx_pool, free, to_rx_pool, to_tx_pool, freed, Netbuf,
  zero_trans, alloc, to_len,
}
use atheros_wifi.Netbuf.Buffer.Room.{IsBuffer, size_of}
use atheros_wifi.Netbuf.Buffer.Fragments.{total_from, to_len-total}

-- What `a_netbuf_alloc(100)` gives over the memory at 4096.
abbrev fresh : Netbuf
fresh = record {
  native = record { length = 164; payload = 4096 } ∷ record { length = 0; payload = 0 } ∷ [];
  num_frags = 0;
  native_orig = none;
  head = 4096;
  start = 4160;
  tail = 4160;
  finish = 4260;
  tx_pool_id = 0;
  rx_pool_id = 0;
  trans = zero_trans;
}

alloc-fresh : alloc (some 8) (some 4096) 100 ≡ some fresh
unfolding alloc
alloc-fresh = refl

fresh-IsBuffer : IsBuffer fresh
fresh-IsBuffer = omega arith

abbrev zeros : Mem
zeros _ = 0

to_len-total_example : to_len fresh ≡ total_from fresh 0 1 % 2 ^ 32
to_len-total_example = to_len-total fresh

-- The buffer of a register access: no head room, four bytes.
register_access : size_of (configure (some 4096) 0 4 4) ≡ 4
unfolding configure
register_access = refl

-- A used buffer is laid out anew.
used_again : reinit (record fresh { start = 4170; tail = 4200 }) 100 ≡ fresh
unfolding reinit
used_again = refl

initialised : ((init fresh).start ≡ 4160) × ((init fresh).rx_pool_id ≡ 1)
unfolding init
initialised = (refl, refl)

released :
    (free fresh ≡ freed true)
    × (free (set_tx_pool fresh) ≡ to_tx_pool)
    × (free (set_rx_pool (set_tx_pool fresh)) ≡ to_rx_pool)
unfolding free set_rx_pool set_tx_pool
released = (refl, refl, refl)
