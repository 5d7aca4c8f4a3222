-- ===== src/Bus/Wire.antt =====
-- What goes over the wire for an access to a register.
use atheros_wifi.Prelude.{ℕ, ◌/◌, ◌%◌, ◌^◌, ◌≤◌, ◌<◌, ◌≡◌, refl, Bool, true, false, arith, ◌==◌}
use atheros_wifi.Bus.{Irqs, bit, word, irqs_of, swap16}

pub swap16_lt : (x : ℕ) → swap16 x < 2 ^ 16
unfolding swap16
swap16_lt x = omega arith

pub swap16-swap16 : (x : ℕ) → x < 2 ^ 16 → swap16 (swap16 x) ≡ x
unfolding swap16
swap16-swap16 x h = omega arith

bit_le : (b : Bool) → bit b ≤ 1
bit_le true = omega arith
bit_le false = omega arith

read_bit : (v : ℕ) (b : Bool) → v ≡ bit b → (v == 1) ≡ b
read_bit v true e = rw e refl
read_bit v false e = rw e refl

-- A word of the interrupt registers comes back from its number.
irqs_of-word : (s : Irqs) → irqs_of (word s) ≡ s
unfolding irqs_of word
irqs_of-word s =
    let h10 = bit_le s.wrbuf_below_wmark in
    let h9 = bit_le s.rd_done in
    let h8 = bit_le s.wr_done in
    let h7 = bit_le s.cpu_intr in
    let h6 = bit_le s.cpu_on in
    let h5 = bit_le s.counter_intr in
    let h4 = bit_le s.local_cpu_intr in
    let h3 = bit_le s.address_error in
    let h2 = bit_le s.wrbuf_error in
    let h1 = bit_le s.rdbuf_error in
    let h0 = bit_le s.pkt_avail in
    λ t. record {
      wrbuf_below_wmark = read_bit (word s / 2 ^ 10 % 2) s.wrbuf_below_wmark (omega arith) t;
      rd_done = read_bit (word s / 2 ^ 9 % 2) s.rd_done (omega arith) t;
      wr_done = read_bit (word s / 2 ^ 8 % 2) s.wr_done (omega arith) t;
      cpu_intr = read_bit (word s / 2 ^ 7 % 2) s.cpu_intr (omega arith) t;
      cpu_on = read_bit (word s / 2 ^ 6 % 2) s.cpu_on (omega arith) t;
      counter_intr = read_bit (word s / 2 ^ 5 % 2) s.counter_intr (omega arith) t;
      local_cpu_intr = read_bit (word s / 2 ^ 4 % 2) s.local_cpu_intr (omega arith) t;
      address_error = read_bit (word s / 2 ^ 3 % 2) s.address_error (omega arith) t;
      wrbuf_error = read_bit (word s / 2 ^ 2 % 2) s.wrbuf_error (omega arith) t;
      rdbuf_error = read_bit (word s / 2 % 2) s.rdbuf_error (omega arith) t;
      pkt_avail = read_bit (word s % 2) s.pkt_avail (omega arith) t;
    }
