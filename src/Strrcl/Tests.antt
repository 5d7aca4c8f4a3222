-- ===== src/Strrcl/Tests.antt =====
-- One procedure, and the theorems at it.
use atheros_wifi.Prelude.{◌≡◌, refl, true, false, halted, Returns}
use atheros_wifi.Strrcl.{
  st_init, st_start, st_active, Strrcl, store_recall_event, store_recall_start_event, ready_event,
  run_asynch, suspend_enable, suspend_start, chip_up_finish, recall, chip_up_start,
  strrcl_chip_down,
}
use atheros_wifi.Strrcl.Order.{
  IsStrrcl, IsOver, Reach, here, next, start, ready, Reach-IsStrrcl, run_asynch-ready_event,
  Reach-block,
}

abbrev up : Strrcl
up = record {
  state = st_init;
  block = false;
  chip_down = false;
  wmi_ready = true;
  has_asynch = false;
}

-- The recall was asked for.
abbrev asked : Strrcl
asked = record {
  state = st_start;
  block = true;
  chip_down = false;
  wmi_ready = true;
  has_asynch = false;
}

-- The target is off, and is started again.
abbrev off : Strrcl
off = record {
  state = st_active;
  block = true;
  chip_down = true;
  wmi_ready = false;
  has_asynch = true;
}

up-IsStrrcl : IsStrrcl up
up-IsStrrcl = record { blocked = refl; asynch = refl; down = refl }

asked-IsStrrcl : IsStrrcl asked
asked-IsStrrcl = record { blocked = refl; asynch = refl; down = refl }

off-IsStrrcl : IsStrrcl off
off-IsStrrcl = record { blocked = refl; asynch = refl; down = refl }

was_asked : (suspend_start true 100 true up).1 ≡ asked
unfolding suspend_start
was_asked = refl

was_off : store_recall_event true true true 50 asked ≡ off
unfolding store_recall_event recall chip_up_start strrcl_chip_down
was_off = refl

enabled_already : suspend_enable true up ≡ (false, up)
unfolding suspend_enable
enabled_already = refl

abbrev path : Reach up (ready_event (suspend_start true 100 true up).1)
path = next (next here (start up true 100 true)) (ready (suspend_start true 100 true up).1)

Reach-IsStrrcl_example :
    IsStrrcl (ready_event (suspend_start true 100 true up).1)
    × Returns IsStrrcl (run_asynch false true true (ready_event (suspend_start true 100 true up).1))
Reach-IsStrrcl_example =
    Reach-IsStrrcl up (ready_event (suspend_start true 100 true up).1) false true true up-IsStrrcl
      path

run_asynch-ready_event_example : Returns IsOver (run_asynch false true true (ready_event off))
run_asynch-ready_event_example = run_asynch-ready_event off off-IsStrrcl refl

Reach-block_example :
    ((store_recall_event true false true 50 asked).block ≡ true)
    × ((store_recall_event true false true 50 asked).chip_down ≡ true)
Reach-block_example =
    Reach-block asked (store_recall_event true false true 50 asked) true false true 50
      asked-IsStrrcl refl refl refl here

-- An event that nobody asked for ends the procedure with the chip still down.
woken :
    let s =
      store_recall_start_event true false true 0 (record off { block = true; chip_down = true }) in
    (s.block ≡ false) × (s.chip_down ≡ true)
unfolding store_recall_start_event
woken = (refl, refl)

-- The other event does not look at the state: with no time of sleep it ends the procedure under the
-- call that finishes it, which then fails its assertion.
under_way :
    run_asynch false true true (ready_event (store_recall_start_event true true true 0 off))
    ≡ halted
unfolding run_asynch ready_event store_recall_start_event chip_up_finish
under_way = refl
