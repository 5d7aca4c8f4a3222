-- ===== src/Bmi/Loops.antt =====
-- The loops of a read and of a write, with a target that follows include/bmi_msg.h.
use atheros_wifi.Prelude.{
  ℕ, zero, suc, ◌+◌, ◌-◌, ◌*◌, ◌/◌, ◌%◌, ◌^◌, ◌≤◌, ◌<◌, ◌≡◌, refl, sym, ap, ◌∙◌, ◌⊎◌, inl, inr,
  true, Option, none, some, List, ◌++◌, arith, ltb, ◌==◌, if◌then◌else◌, if-true, if-false,
  Bool-cases, length, add32, Mem, load, store, length-load,
}
use mathlib.Core.Path.{subst}
use atheros_wifi.Packet.{a_error}
use atheros_wifi.Bmi.Copy.{
  IsCopy, none-copied, stored-IsCopy, joined-IsCopy, moved-IsCopy, same_source-IsCopy,
}
use atheros_wifi.Bmi.{Channel, ask, command, read_loop, write_loop}

-- BMI_SEGMENTED_WRITE_ADDR: what is written there is not stored but taken as the blocks of a
-- segmented file. A write keeps away from it.
abbrev pub Avoids : (address n : ℕ) → Type 0
Avoids address n = (address + n ≤ 0x1234) ⊎ (0x1234 < address)

-- What the target does by the document: `mem_of` is its memory, and `IsReady` holds where it waits
-- for a command.
pub record IsTarget {D : Type 0} (ch : Channel D) (mem_of : D → Mem) (IsReady : D → Type 0)
    : Type 0 where
  pub writes :
      (d : D) (address n : ℕ) (bytes : List ℕ)
      → IsReady d
      → length bytes ≡ n
      → n ≤ 256
      → address + n < 2 ^ 32
      → Avoids address n
      → let (sent, d') = ch.send (command 3 address n ++ bytes) d in
        (sent ≡ true) × IsReady d' × ((p : ℕ) → mem_of d' p ≡ store (mem_of d) address bytes p)
  pub reads :
      (d : D) (address n : ℕ)
      → IsReady d
      → n ≤ 256
      → address + n < 2 ^ 32
      → let (sent, d1) = ch.send (command 2 address n) d in
        let (answer, d2) = ch.receive n d1 in
        (sent ≡ true)
        × (answer ≡ some (load (mem_of d) address n))
        × IsReady d2
        × ((p : ℕ) → mem_of d2 p ≡ mem_of d p)

-- What `BMIWriteMemory` sends: the length, rounded up to whole words.
abbrev pub rounded : ℕ → ℕ
rounded n = (n + 3) / 4 * 4

-- The length of the next message of a write, and what is left with it.
abbrev aligned : ℕ → ℕ
aligned r = if r % 4 == 0 then r else r + (4 - r % 4)

abbrev left : ℕ → ℕ
left r = if ltb r 244 then aligned r else r

abbrev txlen : ℕ → ℕ
txlen r = if ltb r 244 then left r else 244

message_lem :
    (r : ℕ)
    → 0 < r
    → (0 < txlen r)
      × (txlen r ≤ 256)
      × (txlen r + rounded (left r - txlen r) ≡ rounded r)
      × ((left r - txlen r ≡ 0) ⊎ (txlen r + (left r - txlen r) ≡ r))
      × (left r - txlen r < r)
message_lem r h = elim (Bool-cases (ltb r 244)) [
  | inl y ↦ elim (Bool-cases (r % 4 == 0)) [
    | inl z ↦ rw (y, z) (h, ground arith, ground arith, inl (omega arith), ground arith)
    | inr z ↦ rw (y, z) (ground arith, ground arith, ground arith, inl (omega arith), omega arith)
  ]
  | inr y ↦ rw y (omega arith, omega arith, ground arith, inr (ground arith), ground arith)
]

module _ {D : Type 0} (ch : Channel D) (mem_of : D → Mem) (IsReady : D → Type 0)
    (law : IsTarget ch mem_of IsReady) where
  -- A write that is done.
  abbrev pub IsWritten : (old src : Mem) (address n from : ℕ) → Option (ℕ × D) → Type 0
  IsWritten old src address n from o =
      (d' : D) × (o ≡ some (0, d')) × IsReady d' × IsCopy old (mem_of d') address n src from

  nothing_left :
      (m : Mem) (address n from : ℕ) (d : D)
      → IsReady d
      → n ≡ 0
      → IsWritten (mem_of d) m address n from (some (0, d))
  nothing_left m address n from d ready z =
      rw z (d, refl, ready, none-copied (mem_of d) (mem_of d) m address from λ p. refl)

  pub write_loop_lem :
      (m : Mem) (buffer len fuel address remaining : ℕ) (d : D)
      → IsReady d
      → remaining ≤ fuel
      → remaining ≤ len
      → address + rounded remaining < 2 ^ 32
      → Avoids address (rounded remaining)
      → IsWritten
          (mem_of d)
          m
          address
          (rounded remaining)
          (buffer + (len - remaining))
          (write_loop ch m buffer len fuel address remaining d)
  unfolding write_loop
  write_loop_lem m buffer len zero address remaining d ready enough le fits away =
      let z : remaining ≡ 0 = omega arith in
      subst (IsWritten (mem_of d) m address (rounded remaining) (buffer + (len - remaining)))
        (sym (if-true (remaining == 0) (some (0, d)) none (ground arith)))
        (nothing_left m address (rounded remaining) (buffer + (len - remaining)) d ready
          (omega arith))
  write_loop_lem m buffer len (suc n) address remaining d ready enough le fits away =
      elim (Bool-cases (remaining == 0)) [
        | inl y ↦ rw y (
            nothing_left m address (rounded remaining) (buffer + (len - remaining)) d ready
              (ground arith))
        | inr y ↦
            let some_left : 0 < remaining = ground arith in
            let (pos, small, total, same, less) = message_lem remaining some_left in
            let tx = txlen remaining in
            let src = buffer + (len - remaining) in
            let rest = left remaining - tx in
            let (sent, next, stored) =
              law.writes d address tx (load m src tx) ready (length-load m src tx) small
                (omega arith) (elim away [ inl a ↦ inl (omega arith) | inr a ↦ inr a ]) in
            let d1 = (ch.send (command 3 address tx ++ load m src tx) d).1 in
            let one = stored-IsCopy (mem_of d) (mem_of d1) m address tx src stored in
            let (d', path, done, two) =
              write_loop_lem m buffer len n (address + tx) rest d1 next (omega arith) (omega arith)
                (omega arith)
                (elim away [ inl a ↦ inl (omega arith) | inr a ↦ inr (omega arith) ]) in
            let from : (rounded rest ≡ 0) ⊎ (buffer + (len - rest) ≡ src + tx) = elim same [
              | inl z ↦ inl (omega arith)
              | inr e ↦ inr (omega arith)
            ] in
            let both =
              joined-IsCopy (mem_of d) (mem_of d1) (mem_of d') m address tx (rounded rest) src one (
                moved-IsCopy (mem_of d1) (mem_of d') m (address + tx) (rounded rest) _ (src + tx)
                  from two) in
            (
              d',
              rw (y, sent) (ap (λ a. write_loop ch m buffer len n a rest d1) (omega arith) ∙ path),
              done,
              subst (λ j. IsCopy (mem_of d) (mem_of d') address j m src) total both,
            )
      ]

  -- A read that is done: the target's memory stays as it was.
  abbrev pub IsRead : (old : Mem) (d : D) (address n to : ℕ) → Option (ℕ × Mem × D) → Type 0
  IsRead old d address n to o =
      (m' : Mem) × (d' : D) × (o ≡ some (0, m', d'))
      × IsReady d'
      × ((p : ℕ) → mem_of d' p ≡ mem_of d p)
      × IsCopy old m' to n (mem_of d) address

  no_more :
      (m : Mem) (address n to : ℕ) (d : D)
      → IsReady d
      → n ≡ 0
      → IsRead m d address n to (some (0, m, d))
  no_more m address n to d ready z =
      rw z (m, d, refl, ready, (λ p. refl), none-copied m m (mem_of d) to address λ p. refl)

  pub read_loop_lem :
      (buffer len fuel : ℕ) (m : Mem) (address remaining : ℕ) (d : D)
      → IsReady d
      → remaining ≤ fuel
      → remaining ≤ len
      → address + remaining < 2 ^ 32
      → IsRead m d address remaining
          (buffer + (len - remaining))
          (read_loop ch buffer len fuel m address remaining d)
  unfolding read_loop
  read_loop_lem buffer len zero m address remaining d ready enough le fits =
      subst (IsRead m d address remaining (buffer + (len - remaining)))
        (sym (if-true (remaining == 0) (some (0, m, d)) none (ground arith)))
        (no_more m address remaining (buffer + (len - remaining)) d ready (omega arith))
  read_loop_lem buffer len (suc n) m address remaining d ready enough le fits =
      elim (Bool-cases (remaining == 0)) [
        | inl y ↦
            rw y (no_more m address remaining (buffer + (len - remaining)) d ready (ground arith))
        | inr y ↦
            let rx = if ltb remaining 4 then remaining else 4 in
            let pos : 0 < rx = ground arith in
            let most : rx ≤ remaining = ground arith in
            let small : rx ≤ 256 = ground arith in
            let to = buffer + (len - remaining) in
            let (sent, answer, next, same) = law.reads d address rx ready small (omega arith) in
            let d2 = (ch.receive rx (ch.send (command 2 address rx) d).1).1 in
            let m1 = store m to (load (mem_of d) address rx) in
            let one = stored-IsCopy m m1 (mem_of d) to rx address (λ p. refl) in
            let (m', d', path, done, kept, two) =
              read_loop_lem buffer len n m1 (address + rx) (remaining - rx) d2 next (omega arith)
                (omega arith) (omega arith) in
            let asked : ask ch (command 2 address rx) rx d
                ≡ (some (load (mem_of d) address rx), d2) =
              if-true (ch.send (command 2 address rx) d).0
                (ch.receive rx (ch.send (command 2 address rx) d).1)
                (none, (ch.send (command 2 address rx) d).1) sent
              ∙ ap (λ a. (a, d2)) answer in
            let go : Option (List ℕ) × D → Option (ℕ × Mem × D) = λ q. elim q.0 [
              | none ↦ some (a_error, m, q.1)
              | some bytes ↦
                  read_loop ch buffer len n (store m to bytes) (add32 address rx) (remaining - rx)
                    q.1
            ] in
            let at : buffer + (len - (remaining - rx)) ≡ to + rx = omega arith in
            let two' =
              same_source-IsCopy m1 m' (mem_of d2) (mem_of d) (to + rx) (remaining - rx)
                (address + rx) same
                (subst (λ a. IsCopy m1 m' a (remaining - rx) (mem_of d2) (address + rx)) at two) in
            let total : rx + (remaining - rx) ≡ remaining = omega arith in
            (
              m',
              d',
              if-false (remaining == 0) (some (0, m, d)) (go (ask ch (command 2 address rx) rx d)) y
                  ∙ ap go asked
                  ∙ ap (λ a. read_loop ch buffer len n m1 a (remaining - rx) d2) (omega arith)
                  ∙ path,
              done,
              (λ p. kept p ∙ same p),
              subst (λ j. IsCopy m m' to j (mem_of d) address) total
                  (joined-IsCopy m m1 m' (mem_of d) to rx (remaining - rx) address one two'),
            )
      ]
