-- ===== src/Bmi/Tests.antt =====
-- A small target, and the theorems at it.
use atheros_wifi.Prelude.{
  ℕ, ◌+◌, ◌<◌, ◌≡◌, refl, ap, inl, true, false, some, List, [], ◌∷◌, arith, ◌==◌, if◌then◌else◌,
  get_or, drop, Mem, load, store,
}
use atheros_wifi.Htc.Frame.{word}
use atheros_wifi.Packet.{a_error}
use atheros_wifi.Bmi.{
  Channel, Bmi, write_memory, execute, read_soc_register, write_soc_register, done,
}
use atheros_wifi.Bmi.Copy.{IsCopy}
use atheros_wifi.Bmi.Loops.{IsTarget}
use atheros_wifi.Bmi.Memory.{write_memory_lem}

-- Memory, and the address that was asked for last.
record Chip : Type 0 where
  memory : Mem
  asked : ℕ

-- The number in a message, at an index.
abbrev number : List ℕ → ℕ → ℕ
number l i = word (get_or l i 0) (get_or l (i + 1) 0) (get_or l (i + 2) 0) (get_or l (i + 3) 0)

abbrev channel : Channel Chip
channel = record {
  send = λ l d. (
    true,
    if get_or l 0 0 == 3
        then record d { memory = store d.memory (number l 4) (drop 12 l) }
        else record d { asked = number l 4 },
  );
  receive = λ n d. (some (load d.memory d.asked n), d);
}

abbrev memory_of : Chip → Mem
memory_of d = d.memory

abbrev Always : Chip → Type 0
Always d = 0 < 1

channel-IsTarget : IsTarget channel memory_of Always
channel-IsTarget = record {
  writes = λ d address n bytes ready e small fits away.
      (refl, omega arith, λ p. ap (λ a. store d.memory a bytes p) (omega arith));
  reads = λ d address n ready small fits.
      (refl, ap (λ a. some (load d.memory a n)) (omega arith), omega arith, λ p. refl);
}

abbrev zeros : Mem
zeros _ = 0

-- Seven bytes at address 64.
abbrev host : Mem
host = store zeros 64 (1 ∷ 2 ∷ 3 ∷ 4 ∷ 5 ∷ 6 ∷ 7 ∷ [])

abbrev bmi : Bmi Chip
bmi = record { bmi_done = false; target = record { memory = zeros; asked = 0 } }

write_memory_lem_example :
    (b' : Bmi Chip) × (write_memory channel host bmi 1000 64 7 ≡ some (0, b'))
    × (b'.bmi_done ≡ false)
    × Always b'.target
    × IsCopy zeros b'.target.memory 1000 8 host 64
write_memory_lem_example =
    write_memory_lem channel memory_of Always channel-IsTarget host bmi 1000 64 7 refl (omega arith)
      (omega arith) (inl (omega arith))

-- After `BMIDone`, a command is an error.
after_done : (execute channel (done channel bmi).1 0 0).0 ≡ a_error
unfolding done execute
after_done = refl

-- The answer to the commands with one number; the chip takes them as questions about its memory.
numbers :
    ((execute channel bmi 1000 5).1 ≡ 0 ∷ 0 ∷ 0 ∷ 0 ∷ [])
    × ((read_soc_register channel bmi 1000).0 ≡ 0)
    × ((write_soc_register channel bmi 1000 5).0 ≡ 0)
unfolding execute read_soc_register write_soc_register
numbers = (refl, refl, refl)
