-- ===== src/Bmi.antt =====
-- common_src/bmi/bmi.c: the messages by which the host reads and writes the memory of a target whose
-- firmware does not run yet.
pub mod Copy
pub mod Loops
pub mod Memory
mod Tests
use atheros_wifi.Prelude.{
  ℕ, zero, suc, ◌+◌, ◌-◌, ◌/◌, ◌%◌, ◌^◌, Bool, true, false, Option, none, some, List, [], ◌∷◌, ◌++◌,
  ltb, ◌==◌, if◌then◌else◌, add32, Mem, load, store,
}
use atheros_wifi.Packet.{a_error}
use atheros_wifi.Wmi.{le32}

abbrev pub datasz_max : ℕ
datasz_max = 256

-- The way to the target: `bmiBufferSend` of some bytes, and `bmiBufferReceive` of so many.
pub record Channel (D : Type 0) : Type 0 where
  pub send : List ℕ → D → Bool × D
  pub receive : ℕ → D → Option (List ℕ) × D

-- `bmiDone`, and the target.
pub record Bmi (D : Type 0) : Type 0 where
  pub bmi_done : Bool
  pub target : D

-- Three numbers, and the size of such a header.
abbrev pub command : (cid address length : ℕ) → List ℕ
command cid address length = le32 cid ++ (le32 address ++ le32 length)

abbrev pub header : ℕ
header = 12

module _ {D : Type 0} (ch : Channel D) where
  -- A message, and the bytes of the answer.
  abbrev pub ask : List ℕ → (len : ℕ) → D → Option (List ℕ) × D
  ask message len d =
      let (sent, d') = ch.send message d in if sent then ch.receive len d' else (none, d')

  -- The loop of `BMIReadMemory`, four bytes at a time; `none` where the fuel is not enough.
  unfoldable pub read_loop :
      (buffer length fuel : ℕ) → Mem → (address remaining : ℕ) → D → Option (ℕ × Mem × D)
  read_loop buffer length zero m address remaining d =
      if remaining == 0 then some (0, m, d) else none
  read_loop buffer length (suc n) m address remaining d =
      let rxlen = if ltb remaining 4 then remaining else 4 in
      let (answer, d') = ask (command 2 address rxlen) rxlen d in
      if remaining == 0 then some (0, m, d) else (elim answer [
        | none ↦ some (a_error, m, d')
        | some bytes ↦
            read_loop buffer length n (store m (buffer + (length - remaining)) bytes)
              (add32 address rxlen) (remaining - rxlen) d'
      ])

  -- `BMIReadMemory`, into the `length` bytes at `buffer`.
  unfoldable pub read_memory : Mem → Bmi D → (address buffer length : ℕ) → Option (ℕ × Mem × Bmi D)
  read_memory m b address buffer length =
      if b.bmi_done
      then some (a_error, m, b)
      else (elim (read_loop buffer length length m address length b.target) [
        | none ↦ none
        | some (s, m', d) ↦ some (s, m', record b { target = d })
      ])

  -- The loop of `BMIWriteMemory`: the last message has a multiple of four bytes.
  unfoldable pub write_loop : Mem → (buffer length fuel address remaining : ℕ) → D → Option (ℕ × D)
  write_loop m buffer length zero address remaining d = if remaining == 0 then some (0, d) else none
  write_loop m buffer length (suc n) address remaining d =
      let src = buffer + (length - remaining) in
      let is_last = ltb remaining (datasz_max - header) in
      let aligned = if remaining % 4 == 0 then remaining else remaining + (4 - remaining % 4) in
      let left = if is_last then aligned else remaining in
      let txlen = if is_last then left else datasz_max - header in
      let (sent, d') = ch.send (command 3 address txlen ++ load m src txlen) d in
      let rest = write_loop m buffer length n (add32 address txlen) (left - txlen) d' in
      if remaining == 0 then some (0, d) else (if sent then rest else some (a_error, d'))

  -- `BMIWriteMemory` of the `length` bytes at `buffer`.
  unfoldable pub write_memory : Mem → Bmi D → (address buffer length : ℕ) → Option (ℕ × Bmi D)
  write_memory m b address buffer length =
      if b.bmi_done
      then some (a_error, b)
      else (elim (write_loop m buffer length length address length b.target) [
        | none ↦ none
        | some (s, d) ↦ some (s, record b { target = d })
      ])

  -- The end of the commands that wait for one number: the status, and the number's bytes.
  abbrev pub answered : Bmi D → Option (List ℕ) × D → ℕ × List ℕ × Bmi D
  answered b (none, d) = (a_error, [], record b { target = d })
  answered b (some bytes, d) = (0, bytes, record b { target = d })

  -- `BMIExecute`
  unfoldable pub execute : Bmi D → (address param : ℕ) → ℕ × List ℕ × Bmi D
  execute b address param =
      if b.bmi_done then (a_error, [], b) else answered b (ask (command 4 address param) 4 b.target)

  -- `BMIReadSOCRegister`
  unfoldable pub read_soc_register : Bmi D → (address : ℕ) → ℕ × List ℕ × Bmi D
  read_soc_register b address =
      if b.bmi_done then (a_error, [], b) else answered b (ask (le32 6 ++ le32 address) 4 b.target)

  -- `BMIWriteSOCRegister`
  unfoldable pub write_soc_register : Bmi D → (address param : ℕ) → ℕ × Bmi D
  write_soc_register b address param =
      let (sent, d) = ch.send (command 7 address param) b.target in
      if b.bmi_done then (a_error, b) else ((if sent then 0 else a_error), record b { target = d })

  -- `BMIDone`; the two buffers that it frees are left out.
  unfoldable pub done : Bmi D → ℕ × Bmi D
  done b =
      let (sent, d) = ch.send (le32 1) b.target in
      if b.bmi_done
      then (0, b)
      else ((if sent then 0 else a_error), record { bmi_done = true; target = d })
