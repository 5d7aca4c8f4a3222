-- ===== src/Bus/Device.antt =====
-- A target to test the bus layer with: two registers that can be written, some that can be read,
-- and a count of the bytes that are transferred.
use atheros_wifi.Prelude.{
  ℕ, ◌+◌, ◌*◌, ◌/◌, ◌%◌, ◌^◌, ◌<◌, bit_or, ◌≡◌, refl, sym, ap, ◌∙◌, Bool, true, false, ◌&&◌, not,
  some, List, [], ◌∷◌, arith, ◌==◌, if◌then◌else◌, ==_refl, passes, passes_at,
}
use mathlib.Core.Path.{ap₂}
use atheros_wifi.Netbuf.Buffer.{Netbuf, zeroed, zero_trans, rx_complete, get_fragment}
use atheros_wifi.Bus.{
  a_pending, Irqs, no_irqs, word, Custom, Bus, swap16, do_pio_write_internal, do_pio_read_internal,
  out_token, cmd_addr_read, cmd_address_internal,
}
use atheros_wifi.Bus.Interrupt.{error_irqs}
use atheros_wifi.Bus.Request.Ownership.{IsRequest}
use atheros_wifi.Bus.Wire.{swap16_lt, swap16-swap16}
use atheros_wifi.Bus.Shadow.{Answers, IsRegister}
use atheros_wifi.Bus.Transfer.Bytes.{Moves}

pub record Target : Type 0 where
  pub enabled : ℕ
  pub watermark : ℕ
  pub readings : List ℕ
  pub moved : ℕ

-- The address of register `i`, as the host sends it to write and to read.
unfoldable pub to_write : ℕ → ℕ
to_write i = swap16 (bit_or (i * 0x100) cmd_address_internal)

unfoldable pub to_read : ℕ → ℕ
to_read i = swap16 (bit_or (bit_or (i * 0x100) cmd_address_internal) cmd_addr_read)

unfoldable pub put : Target → ℕ → ℕ → Target
put d low high =
    if low == to_write 13
    then record d { enabled = swap16 high }
    else (if low == to_write 19 then record d { watermark = swap16 high } else d)

-- The reading of register `i` is the entry `i` of the list.
unfoldable pub find : List ℕ → ℕ → ℕ → ℕ
find [] i low = 0
find (v ∷ vs) i low = let rest = find vs (i + 1) low in if low == to_read i then v else rest

unfoldable pub target : Custom Target
target = record {
  inout_token = λ d t n. (
    0,
    swap16 (find d.readings 0 (t % 2 ^ 16)) * 2 ^ 16,
    put d (t % 2 ^ 16) (t / 2 ^ 16 % 2 ^ 16),
  );
  inout_buffer = λ d f rd sync. (0, record d { moved = d.moved + f.length });
  start_transfer = λ d sync. (0, d);
  complete_transfer = λ d sync. (if sync then 0 else a_pending, d);
  enable_disable_spi_irq = λ d enable. d;
  usec_delay = λ d n. d;
  set_clock = λ d n. d;
}

pub target-Answers : Answers target
unfolding target do_pio_write_internal do_pio_read_internal out_token
target-Answers = record {
  writes = λ d address value. refl;
  reads = λ d address. refl;
  commands = λ d address. refl;
}

pub target-Moves : Moves target (λ d. d.moved)
unfolding target
target-Moves = record {
  takes = λ d f rd sync. refl;
  counts = λ d f rd sync. refl;
  starts = λ d sync. refl;
  start_count = λ d sync. refl;
  end_count = λ d sync. refl;
}

parts :
    (d : Target) (low high : ℕ)
    → low < 2 ^ 16
    → high < 2 ^ 16
    → put d ((low + high * 2 ^ 16) % 2 ^ 16) ((low + high * 2 ^ 16) / 2 ^ 16 % 2 ^ 16)
      ≡ put d low high
parts d low high l h = ap₂ (put d) (omega arith) (omega arith)

agree : Bool → Bool → Bool
agree true y = y
agree false y = not y

-- No other register has the address of 13 or of 19, and none to read has one to write.
apart : ℕ → Bool
apart j =
    agree (to_write j == to_write 13) (j == 13)
    && (agree (to_write j == to_write 19) (j == 19)
        && (not (to_read j == to_write 13) && not (to_read j == to_write 19)))

all_apart : passes apart 32 ≡ true
unfolding passes apart agree to_write to_read swap16
all_apart = refl

agree_eq : (x y : Bool) → agree x y ≡ true → x ≡ y
unfolding agree
agree_eq true y e = sym e
agree_eq false true e = absurd (ground arith)
agree_eq false false e = refl

-- What `apart` says of one register.
addresses :
    (j : ℕ)
    → j < 32
    → ((to_write j == to_write 13) ≡ (j == 13))
      × ((to_write j == to_write 19) ≡ (j == 19))
      × ((to_read j == to_write 13) ≡ false)
      × ((to_read j == to_write 19) ≡ false)
unfolding apart
addresses j lt =
    let all = passes_at apart 32 j lt all_apart in
    let p : agree (to_write j == to_write 13) (j == 13) ≡ true = ground arith in
    let q : agree (to_write j == to_write 19) (j == 19) ≡ true = ground arith in
    (agree_eq _ _ p, agree_eq _ _ q, ground arith, ground arith)

put-write :
    (d : Target) (i v : ℕ)
    → (do_pio_write_internal target d (i * 0x100) v).1 ≡ put d (to_write i) (swap16 v)
unfolding do_pio_write_internal target to_write
put-write d i v =
    parts d (to_write i) (swap16 v) (swap16_lt (bit_or (i * 0x100) cmd_address_internal))
      (swap16_lt v)

put-read :
    (d : Target) (i : ℕ) → (do_pio_read_internal target d (i * 0x100)).2 ≡ put d (to_read i) 0
unfolding do_pio_read_internal target to_read
put-read d i =
    let small = swap16_lt (bit_or (bit_or (i * 0x100) cmd_address_internal) cmd_addr_read) in
    ap₂ (put d) (omega arith) (omega arith)

enabled-put :
    (d : Target) (low high : ℕ)
    → let here = low == to_write 13 in
      (here ≡ true → (put d low high).enabled ≡ swap16 high)
      × (here ≡ false → (put d low high).enabled ≡ d.enabled)
unfolding put
enabled-put d low high = (λ y. rw y refl, λ n. ground (arith, n))

watermark-put :
    (d : Target) (low high : ℕ)
    → let here = low == to_write 19 in
      (low == to_write 13) ≡ false
      → (here ≡ true → (put d low high).watermark ≡ swap16 high)
        × (here ≡ false → (put d low high).watermark ≡ d.watermark)
unfolding put
watermark-put d low high e = (λ y. rw (e, y) refl, λ n. rw (e, n) refl)

pub target-enabled : IsRegister target 13 (λ d. d.enabled)
unfolding target
target-enabled = record {
  written = λ d v h.
      ap (λ (t : Target). t.enabled) (put-write d 13 v)
      ∙ (enabled-put d (to_write 13) (swap16 v)).0 (==_refl (to_write 13))
      ∙ swap16-swap16 v h;
  others = λ j lt ne d v.
      let (p, q, _, _) = addresses j lt in
      ap (λ (t : Target). t.enabled) (put-write d j v)
      ∙ (enabled-put d (to_write j) (swap16 v)).1 (p ∙ ne);
  kept = λ j lt d.
      let (_, _, p, q) = addresses j lt in
      ap (λ (t : Target). t.enabled) (put-read d j) ∙ (enabled-put d (to_read j) 0).1 p;
  irq = λ d enable. refl;
  delay = λ d n. refl;
  clock = λ d n. refl;
}

others_watermark :
    (j : ℕ) (d : Target) (v : ℕ)
    → j < 32
    → (j == 19) ≡ false
    → (put d (to_write j) (swap16 v)).watermark ≡ d.watermark
unfolding put
others_watermark j d v lt ne =
    let (p, q, _, _) = addresses j lt in
    let away : (to_write j == to_write 19) ≡ false = q ∙ ne in ground (arith, away)

pub target-watermark : IsRegister target 19 (λ d. d.watermark)
unfolding target
target-watermark = record {
  written = λ d v h.
      let (p, q, _, _) = addresses 19 (omega arith) in
      ap (λ (t : Target). t.watermark) (put-write d 19 v)
      ∙ (watermark-put d (to_write 19) (swap16 v) p).0 (==_refl (to_write 19))
      ∙ swap16-swap16 v h;
  others = λ j lt ne d v.
      ap (λ (t : Target). t.watermark) (put-write d j v) ∙ others_watermark j d v lt ne;
  kept = λ j lt d.
      let (_, _, p, q) = addresses j lt in
      ap (λ (t : Target). t.watermark) (put-read d j) ∙ (watermark-put d (to_read j) 0 p).1 q;
  irq = λ d enable. refl;
  delay = λ d n. refl;
  clock = λ d n. refl;
}

-- The sources that are enabled once the driver runs, and those of the target's report.
abbrev pub open_mask : Irqs
open_mask = record error_irqs { local_cpu_intr = true; pkt_avail = true; wrbuf_below_wmark = true }

abbrev pub packet_and_room : ℕ
packet_and_room = 2 ^ 10 + 1

abbrev pub reporting : ℕ → ℕ → Target
reporting cause status = record {
  enabled = word open_mask;
  watermark = 0;
  readings =
      0 ∷ 0 ∷ 3163 ∷ 40 ∷ 0 ∷ status ∷ 0 ∷ 0 ∷ 0 ∷ 0 ∷ 0 ∷ 0 ∷ cause ∷ 0 ∷ 0 ∷ 0 ∷ 0 ∷ 0 ∷ 0 ∷ 0
      ∷ 0x0102 ∷ 0x0304 ∷ [];
  moved = 0;
}

abbrev pub over : Target → Bus Target
over d = record {
  fatal_error = false;
  shutdown = false;
  dma_in_prog = false;
  dma_complete = false;
  write_wait = true;
  shadow = open_mask;
  irq_mask = no_irqs;
  config_shadow = 128;
  capabilities = 0x89;
  dma_data_width = 3;
  irqs_enabled = false;
  irq_detected = true;
  cpu_interrupt = false;
  pending_irq_acks = 0;
  read_buffer_space = 0;
  write_buffer_space = 100;
  max_write_buffer_space = 3163;
  lookahead = 0;
  block_size = 16;
  pad_buffer = 9000;
  operational_clock = 24000000;
  power_up_delay = 1;
  device = d;
}

-- A request of 10 bytes, padded to 16.
abbrev pub small : Netbuf
small = record zeroed {
  start = 4160;
  tail = 4170;
  trans = record zero_trans {
    transfer_length = 16;
    address = 0x7f0;
    cmd = 0x84;
    cb = some rx_complete;
  };
}

abbrev pub at_packet : Bus Target
at_packet = over (reporting packet_and_room 0)

abbrev pub at_error : Bus Target
at_error = over (reporting 8 0)

pub small-IsRequest : IsRequest at_packet small
unfolding get_fragment
small-IsRequest = (omega arith, omega arith, omega arith)
