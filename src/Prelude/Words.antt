-- ===== src/Prelude/Words.antt =====
-- 32-bit words, and byte memory.
use Prim.Native.Nat.{ℕ, zero, suc, ◌+◌, ◌-◌, ◌%◌, ◌^◌, ◌≤◌, ◌<◌}
use mathlib.Core.Path.{◌≡◌, refl, sym, ap, ap₂, ◌∙◌}
use mathlib.Core.List.{List, [], ◌∷◌, ◌++◌}
use native.Mathlib.Omega.{arith}
use atheros_wifi.Prelude.Tests.{ltb, if◌then◌else◌, lt→ltb, le→ltb}
use atheros_wifi.Prelude.Lists.{length, get_or, take, drop}

abbrev pub add32 : ℕ → ℕ → ℕ
add32 a b = (a + b) % 2 ^ 32

abbrev pub sub32 : ℕ → ℕ → ℕ
sub32 a b = (a + 2 ^ 32 - b) % 2 ^ 32

abbrev pub Mem : Type 0
Mem = ℕ → ℕ

-- The `n` bytes from address `a` on.
abbrev pub load : Mem → ℕ → ℕ → List ℕ
load m a zero = []
load m a (suc n) = m a ∷ load m (a + 1) n

-- memcpy to address `a`.
unfoldable pub store : Mem → ℕ → List ℕ → Mem
store m a bs p = if ltb p a then m p else get_or bs (p - a) (m p)

pub load-ext :
    (m k : Mem) (a n : ℕ) → ((p : ℕ) → a ≤ p → p < a + n → m p ≡ k p) → load m a n ≡ load k a n
load-ext m k a zero h = refl
load-ext m k a (suc n) h =
    ap₂ (λ x xs. x ∷ xs) (h a (omega arith) (omega arith))
      (load-ext m k (a + 1) n (λ p lo hi. h p (omega arith) (omega arith)))

pub length-load : (m : Mem) (a n : ℕ) → length (load m a n) ≡ n
length-load m a zero = refl
length-load m a (suc n) = ap suc (length-load m (a + 1) n)

pub load-add : (m : Mem) (a n k : ℕ) → load m a (n + k) ≡ load m a n ++ load m (a + n) k
load-add m a zero k = ap₂ (λ p j. load m p j) (omega arith) (omega arith)
load-add m a (suc n) k =
    ap (λ j. load m a j) (shift n k)
    ∙ ap (λ xs. m a ∷ xs)
        (load-add m (a + 1) n k ∙ ap (λ p. load m (a + 1) n ++ load m p k) (omega arith))
  where
    shift : (n k : ℕ) → suc n + k ≡ suc (n + k)
    shift n k = omega arith

pub take-load : (m : Mem) (a n k : ℕ) → take n (load m a (n + k)) ≡ load m a n
take-load m a zero k = refl
take-load m a (suc n) k =
    ap (λ j. take (suc n) (load m a j)) (shift n k) ∙ ap (λ xs. m a ∷ xs) (take-load m (a + 1) n k)
  where
    shift : (n k : ℕ) → suc n + k ≡ suc (n + k)
    shift n k = omega arith

pub drop-load : (m : Mem) (a n k : ℕ) → drop n (load m a (n + k)) ≡ load m (a + n) k
drop-load m a zero k = ap₂ (λ p j. load m p j) (omega arith) (omega arith)
drop-load m a (suc n) k =
    ap (λ j. drop (suc n) (load m a j)) (shift n k)
    ∙ drop-load m (a + 1) n k
    ∙ ap (λ p. load m p k) (omega arith)
  where
    shift : (n k : ℕ) → suc n + k ≡ suc (n + k)
    shift n k = omega arith

store-in : (m : Mem) (a p : ℕ) (bs : List ℕ) → a ≤ p → store m a bs p ≡ get_or bs (p - a) (m p)
unfolding store
store-in m a p bs h = rw (le→ltb p a h)

store-first : (m : Mem) (a b : ℕ) (bs : List ℕ) → store m a (b ∷ bs) a ≡ b
store-first m a b bs = store-in m a a (b ∷ bs) (omega arith) ∙ at (a - a) (omega arith)
  where
    at : (i : ℕ) → i ≡ 0 → get_or (b ∷ bs) i (m a) ≡ b
    at i e = rw e

store-next :
    (m : Mem) (a b p : ℕ) (bs : List ℕ) → a + 1 ≤ p → store m a (b ∷ bs) p ≡ store m (a + 1) bs p
store-next m a b p bs h =
    store-in m a p (b ∷ bs) (omega arith)
    ∙ at (p - a) (p - (a + 1)) (omega arith)
    ∙ sym (store-in m (a + 1) p bs h)
  where
    at : (i j : ℕ) → i ≡ suc j → get_or (b ∷ bs) i (m p) ≡ get_or bs j (m p)
    at i j e = rw e

-- What was stored is read back.
pub load-store_self : (m : Mem) (a : ℕ) (bs : List ℕ) → load (store m a bs) a (length bs) ≡ bs
load-store_self m a [] = refl
load-store_self m a (b ∷ bs) =
    ap₂ (λ x xs. x ∷ xs) (store-first m a b bs)
      (load-ext (store m a (b ∷ bs)) (store m (a + 1) bs) (a + 1) (length bs)
          (λ p lo hi. store-next m a b p bs lo)
        ∙ load-store_self m (a + 1) bs)

-- A read below the store, and one past it, see the old bytes.
pub load-store_below :
    (m : Mem) (a n p : ℕ) (bs : List ℕ) → a + n ≤ p → load (store m p bs) a n ≡ load m a n
unfolding store
load-store_below m a n p bs h =
    load-ext (store m p bs) m a n (λ r lo hi. rw (lt→ltb r p (omega arith)))

get_or-past {ℓ} : {A : Type ℓ} (xs : List A) (i : ℕ) (d : A) → length xs ≤ i → get_or xs i d ≡ d
get_or-past [] i d h = refl
get_or-past (x ∷ xs) zero d h = absurd (omega arith)
get_or-past (x ∷ xs) (suc i) d h = get_or-past xs i d (omega arith)

pub load-store_above :
    (m : Mem) (a n p : ℕ) (bs : List ℕ) → p + length bs ≤ a → load (store m p bs) a n ≡ load m a n
load-store_above m a n p bs h =
    load-ext (store m p bs) m a n
      (λ r lo hi. store-in m p r bs (omega arith) ∙ get_or-past bs (r - p) (m r) (omega arith))
