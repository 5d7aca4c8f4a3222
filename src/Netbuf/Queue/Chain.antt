-- ===== src/Netbuf/Queue/Chain.antt =====
-- Which list of buffers a queue stands for.
use atheros_wifi.Prelude.{
  ◌%◌, ◌≡◌, refl, sym, ◌∙◌, ◌≢◌, false, List, [], ◌∷◌, ◌++◌, arith, ◌==◌, ==_ne, length,
}
use atheros_wifi.Netbuf.Queue.{Ptr, null, Links, assign, Queue}

abbrev pub NotIn : Ptr → List Ptr → Type 0
NotIn a [] = Unit {0}
NotIn a (x ∷ xs) = (a ≢ x) × NotIn a xs

-- From `p` the links lead through the distinct buffers `xs` to NULL.
abbrev pub Chain : Links → Ptr → List Ptr → Type 0
Chain l p [] = p ≡ null
Chain l p (x ∷ xs) = (p ≡ x) × (x ≢ null) × NotIn x xs × Chain l (l x) xs

-- `t` is the last of the buffers, if there is one.
abbrev pub LastIs : Ptr → List Ptr → Type 0
LastIs t [] = Unit {0}
LastIs t (x ∷ []) = t ≡ x
LastIs t (x ∷ y ∷ ys) = LastIs t (y ∷ ys)

-- The tail of an empty queue may be stale: no operation reads it.
pub record IsQueue (q : Queue) (l : Links) (xs : List Ptr) : Type 0 where
  pub chain : Chain l q.head xs
  pub last : LastIs q.tail xs
  pub counted : q.count ≡ length xs % 65536

pub frame :
    (l : Links) (a v : Ptr) (p : Ptr) (xs : List Ptr)
    → NotIn a xs
    → Chain l p xs
    → Chain (assign l a v) p xs
unfolding assign
frame l a v p [] out c = c
frame l a v p (x ∷ xs) out (e, ne, new, c) =
    (e, ne, new, rw (==_ne x a (λ h. out.0 (sym h))) (frame l a v (l x) xs out.1 c))

pub NotIn-append : (a : Ptr) (xs ys : List Ptr) → NotIn a xs → NotIn a ys → NotIn a (xs ++ ys)
NotIn-append a [] ys h k = k
NotIn-append a (x ∷ xs) ys h k = (h.0, NotIn-append a xs ys h.1 k)

pub last-ne : (a t x : Ptr) (xs : List Ptr) → NotIn a (x ∷ xs) → LastIs t (x ∷ xs) → a ≢ t
last-ne a t x [] out e = rw e out.0
last-ne a t x (y ∷ ys) out e = last-ne a t y ys out.1 e

pub LastIs-append : (r : Ptr) (xs : List Ptr) → LastIs r (xs ++ r ∷ [])
LastIs-append r [] = refl
LastIs-append r (x ∷ []) = refl
LastIs-append r (x ∷ y ∷ ys) = LastIs-append r (y ∷ ys)

module _ (l : Links) (t r : Ptr) where
  assigned-new : assign (assign l t r) r null r ≡ null
  unfolding assign
  assigned-new = ground arith

  assigned-last : (x : Ptr) → t ≡ x → x ≢ r → assign (assign l t r) r null x ≡ r
  unfolding assign
  assigned-last x e n = ground arith

  assigned-else : (x : Ptr) → x ≢ t → x ≢ r → assign (assign l t r) r null x ≡ l x
  unfolding assign
  assigned-else x m n = ground arith

-- Linking `r` behind the last buffer extends the chain by it.
pub extend :
    (l : Links) (t r p x : Ptr) (xs : List Ptr)
    → Chain l p (x ∷ xs)
    → LastIs t (x ∷ xs)
    → r ≢ null
    → NotIn r (x ∷ xs)
    → Chain (assign (assign l t r) r null) p (x ∷ xs ++ r ∷ [])
extend l t r p x [] (e, ne, new, c) last nr out = (
  e,
  ne,
  (λ h. out.0 (sym h), tt),
  (assigned-last l t r x last (λ h. out.0 (sym h)), nr, tt, assigned-new l t r),
)
extend l t r p x (y ∷ ys) (e, ne, new, c) last nr out = (
  e,
  ne,
  NotIn-append x (y ∷ ys) (r ∷ []) new (λ h. out.0 (sym h), tt),
  rw (assigned-else l t r x (last-ne x t y ys new last) (λ h. out.0 (sym h)))
      (extend l t r (l x) y ys c last nr out.1),
)

pub Chain-head : (l : Links) (p x : Ptr) (xs : List Ptr) → Chain l p (x ∷ xs) → (p == null) ≡ false
Chain-head l p x xs c = ==_ne p null (λ h. c.1 (sym c.0 ∙ h))
