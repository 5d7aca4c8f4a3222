-- ===== src/Bmi/Copy.antt =====
-- Bytes that are copied from one memory to another.
use atheros_wifi.Prelude.{
  ℕ, zero, suc, ◌+◌, ◌-◌, ◌≤◌, ◌<◌, ◌≡◌, refl, sym, ap, ◌∙◌, ◌⊎◌, inl, inr, ◌∷◌, arith, ltb,
  Bool-cases, get_or, Mem, load, store, length-load, load-store_self,
}
use mathlib.Core.Path.{ap₂}
use atheros_wifi.Wmi.Headers.{store_past, store_before}

-- Some bytes are copied, and all others are as they were.
pub record IsCopy (old new : Mem) (to n : ℕ) (src : Mem) (from : ℕ) : Type 0 where
  pub inside : (i : ℕ) → i < n → new (to + i) ≡ src (from + i)
  pub outside : (p : ℕ) → (p < to) ⊎ (to + n ≤ p) → new p ≡ old p

pub none-copied :
    (old new src : Mem) (to from : ℕ) → ((p : ℕ) → new p ≡ old p) → IsCopy old new to 0 src from
none-copied old new src to from h = record {
  inside = λ i lt. absurd (omega arith);
  outside = λ p _. h p;
}

load-at : (m : Mem) (a n i : ℕ) → i < n → get_or (load m a n) i 0 ≡ m (a + i)
load-at m a zero i h = absurd (omega arith)
load-at m a (suc n) zero h = ap m (omega arith)
load-at m a (suc n) (suc i) h = load-at m (a + 1) n i (omega arith) ∙ ap m (omega arith)

pub stored-IsCopy :
    (old new src : Mem) (to n from : ℕ)
    → ((p : ℕ) → new p ≡ store old to (load src from n) p)
    → IsCopy old new to n src from
stored-IsCopy old new src to n from h =
    let len = length-load src from n in
    let bs = load src from n in
    record {
      inside = λ i lt.
          h (to + i)
          ∙ sym (load-at (store old to bs) to n i lt)
          ∙ ap (λ l. get_or l i 0)
              (ap (λ k. load (store old to bs) to k) (sym len) ∙ load-store_self old to bs)
          ∙ load-at src from n i lt;
      outside = λ p away. h p ∙ elim away [
        | inl below ↦ store_before old to p bs (omega arith)
        | inr above ↦ store_past old to p bs (omega arith)
      ];
    }

-- One copy behind another.
pub joined-IsCopy :
    (old mid new src : Mem) (to k n from : ℕ)
    → IsCopy old mid to k src from
    → IsCopy mid new (to + k) n src (from + k)
    → IsCopy old new to (k + n) src from
joined-IsCopy old mid new src to k n from first second = record {
  inside = λ i lt. elim (Bool-cases (ltb i k)) [
    | inl y ↦ second.outside (to + i) (inl (ground arith)) ∙ first.inside i (ground arith)
    | inr y ↦
        let ge : k ≤ i = ground arith in
        ap new (omega arith) ∙ second.inside (i - k) (omega arith) ∙ ap src (omega arith)
  ];
  outside = λ p away. elim away [
    | inl below ↦ second.outside p (inl (omega arith)) ∙ first.outside p (inl below)
    | inr above ↦ second.outside p (inr (omega arith)) ∙ first.outside p (inr (omega arith))
  ];
}

pub moved-IsCopy :
    (old new src : Mem) (to n from from' : ℕ)
    → (n ≡ 0) ⊎ (from ≡ from')
    → IsCopy old new to n src from
    → IsCopy old new to n src from'
moved-IsCopy old new src to n from from' (inl z) copy = record {
  inside = λ i lt. absurd (omega arith);
  outside = copy.outside;
}
moved-IsCopy old new src to n from from' (inr e) copy = rw⁻¹ e copy

pub same_source-IsCopy :
    (old new src src' : Mem) (to n from : ℕ)
    → ((p : ℕ) → src p ≡ src' p)
    → IsCopy old new to n src from
    → IsCopy old new to n src' from
same_source-IsCopy old new src src' to n from h copy = record {
  inside = λ i lt. copy.inside i lt ∙ h (from + i);
  outside = copy.outside;
}

pub load-IsCopy :
    (new src : Mem) (to n from : ℕ)
    → ((i : ℕ) → i < n → new (to + i) ≡ src (from + i))
    → load new to n ≡ load src from n
load-IsCopy new src to zero from h = refl
load-IsCopy new src to (suc n) from h =
    ap₂ (λ x xs. x ∷ xs) (ap new (omega arith) ∙ h 0 (omega arith) ∙ ap src (omega arith))
      (load-IsCopy new src (to + 1) n (from + 1)
        λ i lt. ap new (omega arith) ∙ h (i + 1) (omega arith) ∙ ap src (omega arith))
