-- ===== src/Netbuf/Buffer/Bytes.antt =====
-- What the operations do to the payload bytes.
use atheros_wifi.Prelude.{
  ℕ, ◌+◌, ◌-◌, ◌≤◌, ◌≡◌, refl, sym, ap, ◌∙◌, List, ◌++◌, arith, le→ltb, length, take, drop, ran,
  ◌>>=◌, Returns, Returns-mono, Returns-bind, add32, sub32, Mem, load, store, load-add, take-load,
  drop-load, load-store_self, load-store_below, load-store_above,
}
use mathlib.Core.Path.{ap₂}
use atheros_wifi.Netbuf.Buffer.{Netbuf, push, put, pull, trim, push_data, put_data}
use atheros_wifi.Netbuf.Buffer.Room.{
  IsBuffer, size_of, Keeps, push_lem, put_lem, pull_lem, trim_lem,
}

-- The payload in the built-in memory.
abbrev pub content : Mem → Netbuf → List ℕ
content m b = load m b.start (size_of b)

at_load : (m : Mem) {a a' n n' : ℕ} → a ≡ a' → n ≡ n' → load m a n ≡ load m a' n'
at_load m p q = ap₂ (λ a n. load m a n) p q

module _ (m : Mem) (b : Netbuf) (v : IsBuffer b) where
  -- `a_netbuf_pull` takes bytes off the front of the payload.
  pub pull-content :
      (len : ℕ) → len ≤ size_of b → Returns (λ c. content m c ≡ drop len (content m b)) (pull b len)
  pull-content len h =
      Returns-mono (λ c. content m c ≡ drop len (content m b)) (pull b len) (pull_lem b len v h)
        λ c (k, s, t).
          at_load m s (rest c s t)
          ∙ sym (drop-load m b.start len (size_of b - len))
          ∙ ap (λ n. drop len (load m b.start n)) (omega arith)
    where
      rest : (c : Netbuf) → c.start ≡ b.start + len → c.tail ≡ b.tail → size_of c ≡ size_of b - len
      rest c s t = omega arith

  -- `a_netbuf_trim` takes bytes off the back.
  pub trim-content :
      (len : ℕ)
      → len ≤ size_of b
      → Returns (λ c. content m c ≡ take (size_of b - len) (content m b)) (trim b len)
  trim-content len h =
      Returns-mono (λ c. content m c ≡ take (size_of b - len) (content m b)) (trim b len)
        (trim_lem b len v h)
        λ c (k, t, s).
          at_load m s (rest c s t)
          ∙ sym (take-load m b.start (size_of b - len) len)
          ∙ ap (λ n. take (size_of b - len) (load m b.start n)) (omega arith)
    where
      rest : (c : Netbuf) → c.start ≡ b.start → c.tail + len ≡ b.tail → size_of c ≡ size_of b - len
      rest c s t = omega (arith, v)

  -- On a valid buffer with the tail room, `a_netbuf_put_data` appends bytes to the payload, and
  -- keeps the buffer valid.
  put_data-content :
      (src : List ℕ)
      → length src ≤ b.finish - b.tail
      → Returns (λ (m', c). Keeps b c × (content m' c ≡ content m b ++ src)) (put_data m b src)
  unfolding put_data
  put_data-content src h =
      Returns-bind _ (λ (m', c). Keeps b c × (content m' c ≡ content m b ++ src))
        (put b (length src)) _ (put_lem b (length src) v h)
        λ c (k, t, s). (
          k,
          at_load (store m b.tail src) s (more c s t)
              ∙ load-add (store m b.tail src) b.start (size_of b) (length src)
              ∙ ap₂ (λ xs ys. xs ++ ys)
                  (load-store_below m b.start (size_of b) b.tail src (omega arith))
                  (at_load (store m b.tail src) (omega arith) refl ∙ load-store_self m b.tail src),
        )
    where
      more :
          (c : Netbuf)
          → c.start ≡ b.start
          → c.tail ≡ b.tail + length src
          → size_of c ≡ size_of b + length src
      more c s t = omega (arith, v)

  -- On a valid buffer with the head room, `a_netbuf_push_data` puts bytes in front of the payload,
  -- and keeps the buffer valid.
  push_data-content :
      (src : List ℕ)
      → length src ≤ b.start - b.head
      → Returns (λ (m', c). Keeps b c × (content m' c ≡ src ++ content m b)) (push_data m b src)
  unfolding push_data
  push_data-content src h =
      Returns-bind _ (λ (m', c). Keeps b c × (content m' c ≡ src ++ content m b))
        (push b (length src)) _ (push_lem b (length src) v h)
        λ c (k, s, t). (
          k,
          at_load (store m c.start src) refl (more c s t)
              ∙ load-add (store m c.start src) c.start (length src) (size_of b)
              ∙ ap₂ (λ xs ys. xs ++ ys) (load-store_self m c.start src)
                  (load-store_above m (c.start + length src) (size_of b) c.start src (omega arith)
                    ∙ at_load m s refl),
        )
    where
      more :
          (c : Netbuf)
          → c.start + length src ≡ b.start
          → c.tail ≡ b.tail
          → size_of c ≡ length src + size_of b
      more c s t = omega (arith, v)

  -- On a valid buffer, with the room for the bytes at both ends, `a_netbuf_put_data` appends them
  -- to the payload and `a_netbuf_push_data` puts them in front of it; both keep the buffer valid.
  data-content :
      (src : List ℕ)
      → length src ≤ b.finish - b.tail
      → length src ≤ b.start - b.head
      → Returns (λ (m', c). Keeps b c × (content m' c ≡ content m b ++ src)) (put_data m b src)
        × Returns (λ (m', c). Keeps b c × (content m' c ≡ src ++ content m b)) (push_data m b src)
  data-content src h k = (put_data-content src h, push_data-content src k)

-- A header that is pushed within the head room of a valid buffer and then pulled leaves the buffer
-- as it was.
pull-push :
    (b : Netbuf) (len : ℕ)
    → IsBuffer b
    → len ≤ b.start - b.head
    → (push b len >>= λ c. pull c len) ≡ ran b
unfolding push pull
pull-push b len v h =
    rw
      (
        le→ltb (sub32 b.start b.head) len (omega arith),
        le→ltb (sub32 b.tail (sub32 b.start len)) len (omega arith),
      )
      (ap (λ a. ran (record b { start = a })) (omega arith))

-- A trailer that is put within the tail room of a valid buffer and then trimmed leaves the buffer
-- as it was.
trim-put :
    (b : Netbuf) (len : ℕ)
    → IsBuffer b
    → len ≤ b.finish - b.tail
    → (put b len >>= λ c. trim c len) ≡ ran b
unfolding put trim
trim-put b len v h =
    rw
      (
        le→ltb (sub32 b.finish b.tail) len (omega arith),
        le→ltb (sub32 (add32 b.tail len) b.start) len (omega arith),
      )
      (ap (λ a. ran (record b { tail = a })) (omega arith))

-- A header that is pushed and then pulled, and a trailer that is put and then trimmed, leave a
-- valid buffer with the room for them as it was.
round_trip :
    (b : Netbuf) (len : ℕ)
    → IsBuffer b
    → len ≤ b.start - b.head
    → len ≤ b.finish - b.tail
    → ((push b len >>= λ c. pull c len) ≡ ran b) × ((put b len >>= λ c. trim c len) ≡ ran b)
round_trip b len v h k = (pull-push b len v h, trim-put b len v k)
