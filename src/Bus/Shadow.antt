-- ===== src/Bus/Shadow.antt =====
-- The interrupt mask that the driver keeps, and that of the target.
use atheros_wifi.Prelude.{
  Bool-cases, inl, inr, if-true, if-false, if◌then◌else◌, Outcome, ran, ◌>>◌, not, assert, bit_and,
  ℕ, ◌*◌, ◌^◌, ◌≤◌, ◌<◌, ◌≡◌, refl, ap, ◌∙◌, Bool, true, false, arith, ◌==◌,
}
use atheros_wifi.Bus.{
  out_token, edge_detect, enable_disable_spi_irq, enable_disable_hw_detect, a_ok, write_reg,
  intr_enable_reg, Irqs, join, without, meet, any, bit, word, Custom, Bus, mask_spi_interrupts,
  unmask_interrupts, do_pio_write_internal, do_pio_read_internal,
}

-- Every access to a register succeeds, and every command of a transfer.
pub record Answers {D : Type 0} (hw : Custom D) : Type 0 where
  pub writes : (d : D) (address value : ℕ) → (do_pio_write_internal hw d address value).0 ≡ 0
  pub reads : (d : D) (address : ℕ) → (do_pio_read_internal hw d address).0 ≡ 0
  pub commands : (d : D) (address : ℕ) → (out_token hw d address).0 ≡ 0

-- `value` is the word in register `i`, the one at the address `i * 0x100`: a write there sets it,
-- and no other function that runs on an idle bus changes it.
pub record IsRegister {D : Type 0} (hw : Custom D) (i : ℕ) (value : D → ℕ) : Type 0 where
  pub written :
      (d : D) (v : ℕ) → v < 2 ^ 16 → value (do_pio_write_internal hw d (i * 0x100) v).1 ≡ v
  pub others :
      (j : ℕ)
      → j < 32
      → (j == i) ≡ false
      → (d : D) (v : ℕ) → value (do_pio_write_internal hw d (j * 0x100) v).1 ≡ value d
  pub kept : (j : ℕ) → j < 32 → (d : D) → value (do_pio_read_internal hw d (j * 0x100)).2 ≡ value d
  pub irq : (d : D) (enable : Bool) → value (hw.enable_disable_spi_irq d enable) ≡ value d
  pub delay : (d : D) (n : ℕ) → value (hw.usec_delay d n) ≡ value d
  pub clock : (d : D) (n : ℕ) → value (hw.set_clock d n) ≡ value d

bit_le : (b : Bool) → bit b ≤ 1
bit_le true = omega arith
bit_le false = omega arith

pub word_lt : (s : Irqs) → word s < 2 ^ 16
unfolding word
word_lt s = omega (
  arith,
  bit_le s.wrbuf_below_wmark,
  bit_le s.rd_done,
  bit_le s.wr_done,
  bit_le s.cpu_intr,
  bit_le s.cpu_on,
  bit_le s.counter_intr,
  bit_le s.local_cpu_intr,
  bit_le s.address_error,
  bit_le s.wrbuf_error,
  bit_le s.rdbuf_error,
  bit_le s.pkt_avail,
)

bit_eq : (b : Bool) → (bit b == 1) ≡ b
bit_eq true = refl
bit_eq false = refl

-- The target's mask is the shadow.
abbrev pub Mirrors : {D : Type 0} → (D → ℕ) → Bus D → Type 0
Mirrors enabled b = enabled b.device ≡ word b.shadow

pub mask-Mirrors :
    {D : Type 0} (hw : Custom D) (enabled : D → ℕ) (b : Bus D) (mask : Irqs)
    → IsRegister hw 13 enabled
    → (d : D) × (enabled d ≡ word (without mask b.shadow))
      × ((mask_spi_interrupts hw b mask).1
          ≡ record b { shadow = without mask b.shadow; device = d })
unfolding mask_spi_interrupts
mask-Mirrors hw enabled b mask r = (_, r.written b.device _ (word_lt (without mask b.shadow)), refl)

join-any : (m s : Irqs) → any m ≡ true → any (meet m (join m s)) ≡ true
join-any m s h = ground arith

pub unmask-Mirrors :
    {D : Type 0} (hw : Custom D) (enabled : D → ℕ) (b : Bus D) (mask : Irqs)
    → IsRegister hw 13 enabled
    → any mask ≡ true
    → (d : D) × (enabled d ≡ word (join mask b.shadow))
      × ((unmask_interrupts hw b mask).1 ≡ record b { shadow = join mask b.shadow; device = d })
unfolding unmask_interrupts
unmask-Mirrors hw enabled b mask r some_irq = (
  _,
  r.written b.device _ (word_lt (join mask b.shadow)),
  rw (join-any mask b.shadow some_irq) refl,
)

enable-on :
    {D : Type 0} (hw : Custom D) (enabled : D → ℕ) (b : Bus D)
    → IsRegister hw 13 enabled
    → (d : D) × (enabled d ≡ enabled b.device)
      × (enable_disable_spi_irq hw b true ≡ record b { irqs_enabled = true; device = d })
unfolding enable_disable_spi_irq
enable-on hw enabled b r = elim (Bool-cases b.irqs_enabled) [
  | inl y ↦
      (b.device, refl, if-true b.irqs_enabled b _ y ∙ ap (λ w. record b { irqs_enabled = w }) y)
  | inr n ↦ (_, r.irq b.device true, if-false b.irqs_enabled b _ n)
]

abbrev pub on_edge : {D : Type 0} → Bus D → Bool
on_edge b = not (bit_and b.capabilities edge_detect == 0)

-- With edge detection, the target's mask is written anew.
pub enable_detect_lem :
    {D : Type 0} (hw : Custom D) (enabled : D → ℕ) (b : Bus D)
    → Answers hw
    → IsRegister hw 13 enabled
    → (d : D) × (enabled d ≡ (if on_edge b then word b.shadow else enabled b.device))
      × (enable_disable_hw_detect hw b true ≡ ran (record b { irqs_enabled = true; device = d }))
unfolding enable_disable_hw_detect
enable_detect_lem {D = D} hw enabled b answers r = elim (Bool-cases (on_edge b)) [
  | inl y ↦
      let b1 = (write_reg hw b intr_enable_reg 0).1 in
      let (d, e, eq) = enable-on hw enabled b1 r in
      let d' = (do_pio_write_internal hw d intr_enable_reg (word b.shadow)).1 in
      let last : Bus D → Outcome (Bus D) = λ m. (do
        let (status', b3) = write_reg hw m intr_enable_reg (word m.shadow)
        assert (status' == a_ok)
        ran b3) in
      rw (y, answers.writes b.device intr_enable_reg 0)
        (
          d',
          r.written d _ (word_lt b.shadow),
          ap last eq ∙ rw (answers.writes d intr_enable_reg (word b.shadow)) refl,
        )
  | inr n ↦ let (d, e, eq) = enable-on hw enabled b r in rw n (d, e, ap (λ m. ran m) eq)
]

enable-off :
    {D : Type 0} (hw : Custom D) (b : Bus D)
    → (d : D) × (enable_disable_spi_irq hw b false ≡ record b { irqs_enabled = false; device = d })
unfolding enable_disable_spi_irq
enable-off hw b = elim (Bool-cases b.irqs_enabled) [
  | inl y ↦ (_, if-true b.irqs_enabled _ b y)
  | inr n ↦ (b.device, if-false b.irqs_enabled _ b n ∙ ap (λ w. record b { irqs_enabled = w }) n)
]

pub disable_detect_lem :
    {D : Type 0} (hw : Custom D) (b : Bus D)
    → (d : D) × (enable_disable_hw_detect hw b false
        ≡ ran (record b { irqs_enabled = false; device = d }))
unfolding enable_disable_hw_detect
disable_detect_lem hw b =
    let (d, eq) = enable-off hw b in
    elim (Bool-cases (on_edge b)) [ inl y ↦ rw y (d, ap ran eq) | inr n ↦ rw n (d, ap ran eq) ]
