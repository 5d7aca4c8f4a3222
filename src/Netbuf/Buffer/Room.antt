-- ===== src/Netbuf/Buffer/Room.antt =====
-- The four pointers stay in order, and each operation succeeds exactly when it has the room.
use atheros_wifi.Prelude.{
  ℕ, ◌+◌, ◌-◌, ◌^◌, ◌≤◌, ◌<◌, ◌≡◌, refl, ◌↔◌, some, arith, ltb, if◌then◌else◌, le→ltb, ran, halted,
  Returns, sub32,
}
use atheros_wifi.Netbuf.Buffer.{Netbuf, alloc, alloc_raw, headroom, tailroom, push, put, pull, trim}

-- The payload lies in the memory of the buffer, and that lies below 2 ^ 32.
pub record IsBuffer (b : Netbuf) : Type 0 where
  pub head_le : b.head ≤ b.start
  pub start_le : b.start ≤ b.tail
  pub tail_le : b.tail ≤ b.finish
  pub finish_lt : b.finish < 2 ^ 32

-- The length of the payload in the built-in memory.
abbrev pub size_of : Netbuf → ℕ
size_of b = b.tail - b.start

-- A push, put, pull or trim of a valid buffer.
abbrev pub Keeps : Netbuf → Netbuf → Type 0
Keeps b c =
    IsBuffer c
    × (c.head ≡ b.head)
    × (c.finish ≡ b.finish)
    × (c.num_frags ≡ b.num_frags)
    × (c.trans ≡ b.trans)

guard_halts :
    (room len : ℕ) (c : Netbuf) → ((if ltb room len then halted else ran c) ≡ halted) ↔ (room < len)
guard_halts room len c = ground arith

length_eq : (b : Netbuf) → IsBuffer b → sub32 b.tail b.start ≡ size_of b
length_eq b v = omega arith

module _ (b : Netbuf) (len : ℕ) (v : IsBuffer b) where
  -- Within the head room, `a_netbuf_push` moves the start of the payload down by the length and
  -- leaves all else.
  pub push_lem :
      len ≤ b.start - b.head
      → Returns (λ c. Keeps b c × (c.start + len ≡ b.start) × (c.tail ≡ b.tail)) (push b len)
  unfolding push
  push_lem h =
      rw (le→ltb (sub32 b.start b.head) len (omega arith))
        ((omega arith, refl, refl, refl, refl), omega arith, refl)

  -- Within the tail room, `a_netbuf_put` moves the end of the payload up by the length and leaves
  -- all else.
  pub put_lem :
      len ≤ b.finish - b.tail
      → Returns (λ c. Keeps b c × (c.tail ≡ b.tail + len) × (c.start ≡ b.start)) (put b len)
  unfolding put
  put_lem h =
      rw (le→ltb (sub32 b.finish b.tail) len (omega arith))
        ((omega arith, refl, refl, refl, refl), omega arith, refl)

  -- Within the payload, `a_netbuf_pull` moves its start up by the length and leaves all else.
  pub pull_lem :
      len ≤ size_of b
      → Returns (λ c. Keeps b c × (c.start ≡ b.start + len) × (c.tail ≡ b.tail)) (pull b len)
  unfolding pull
  pull_lem h =
      rw (le→ltb (sub32 b.tail b.start) len (omega arith))
        ((omega arith, refl, refl, refl, refl), omega arith, refl)

  -- Within the payload, `a_netbuf_trim` moves its end down by the length and leaves all else.
  pub trim_lem :
      len ≤ size_of b
      → Returns (λ c. Keeps b c × (c.tail + len ≡ b.tail) × (c.start ≡ b.start)) (trim b len)
  unfolding trim
  trim_lem h =
      rw (le→ltb (sub32 b.tail b.start) len (omega arith))
        ((omega arith, refl, refl, refl, refl), omega arith, refl)

  -- On a valid buffer, each of `a_netbuf_push`, `a_netbuf_put`, `a_netbuf_pull` and
  -- `a_netbuf_trim` halts exactly where the length exceeds the room that the buffer reports: the
  -- head room, the tail room, and for the last two the payload.
  halts_iff :
      ((push b len ≡ halted) ↔ (headroom b < len))
      × ((put b len ≡ halted) ↔ (tailroom b < len))
      × ((pull b len ≡ halted) ↔ (size_of b < len))
      × ((trim b len ≡ halted) ↔ (size_of b < len))
  unfolding push put pull trim headroom tailroom
  halts_iff = (
    guard_halts (headroom b) len _,
    guard_halts (tailroom b) len _,
    rw (length_eq b v) (guard_halts (size_of b) len _),
    rw (length_eq b v) (guard_halts (size_of b) len _),
  )

-- `a_netbuf_alloc` over memory that ends below 2 ^ 32 gives an empty valid buffer, with 64 bytes
-- of head room and the size that was asked for as tail room.
alloc-IsBuffer :
    (obj base size : ℕ) {b : Netbuf}
    → base + 64 + size < 2 ^ 32
    → alloc (some obj) (some base) size ≡ some b
    → IsBuffer b × (size_of b ≡ 0) × (headroom b ≡ 64) × (tailroom b ≡ size)
unfolding alloc headroom tailroom
alloc-IsBuffer obj base size h e = ground arith

-- `a_netbuf_alloc_raw` gives one without head room.
pub alloc_raw-IsBuffer :
    (obj base size : ℕ) {b : Netbuf}
    → base + size < 2 ^ 32
    → alloc_raw (some obj) (some base) size ≡ some b
    → IsBuffer b × (size_of b ≡ 0) × (headroom b ≡ 0) × (tailroom b ≡ size)
unfolding alloc_raw headroom tailroom
alloc_raw-IsBuffer obj base size h e = ground arith
