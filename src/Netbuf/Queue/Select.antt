-- ===== src/Netbuf/Queue/Select.antt =====
-- `a_netbuf_dequeue_adv` takes the buffer with a given payload out of the middle of a queue, and
-- `a_netbuf_purge_queue` frees all of them.
use atheros_wifi.Prelude.{
  ℕ, zero, suc, ◌+◌, ◌%◌, ◌<◌, ◌≡◌, refl, sym, ap, ◌∙◌, ◌≢◌, inl, inr, Bool, true, false, ◌||◌,
  some, List, [], ◌∷◌, ◌++◌, arith, ◌==◌, if◌then◌else◌, ==_refl, ==_ne, Bool-cases, length,
}
use mathlib.Core.Path.{subst}
use mathlib.Core.List.{append-nil, append_assoc}
use atheros_wifi.Netbuf.Queue.{
  Ptr, null, Links, assign, Queue, State, count_dec, unlink, take_out, search_from, dequeue_adv,
  purge_loop, purge_queue,
}
use atheros_wifi.Netbuf.Queue.Chain.{NotIn, Chain, LastIs, IsQueue, frame, last-ne}

module _ (payload : Ptr → ℕ) (pkt : ℕ) where
  -- The first buffer with the payload, or NULL.
  abbrev pub pick : List Ptr → Ptr
  pick [] = null
  pick (x ∷ xs) = if payload x == pkt then x else pick xs

  -- The buffers without the first that has the payload.
  abbrev pub remove : List Ptr → List Ptr
  remove [] = []
  remove (x ∷ xs) = let rest = remove xs in if payload x == pkt then xs else x ∷ rest

  abbrev pub present : List Ptr → Bool
  present [] = false
  present (x ∷ xs) = payload x == pkt || present xs

  NotIn-remove : (a : Ptr) (xs : List Ptr) → NotIn a xs → NotIn a (remove xs)
  NotIn-remove a [] h = tt
  NotIn-remove a (x ∷ xs) h = elim (Bool-cases (payload x == pkt)) [
    | inl e ↦ rw e h.1
    | inr e ↦ rw e (h.0, NotIn-remove a xs h.1)
  ]

  pub length-remove :
      (xs : List Ptr) → length (remove xs) + (if present xs then 1 else 0) ≡ length xs
  length-remove [] = refl
  length-remove (x ∷ xs) = elim (Bool-cases (payload x == pkt)) [
    | inl e ↦ rw e (omega arith)
    | inr e ↦ rw e (omega (arith, length-remove xs))
  ]

  -- What the search past `x` comes to, where `xs` are the buffers behind `x`.
  record Searched (q : Queue) (l : Links) (x : Ptr) (xs : List Ptr) (r : Ptr × State) : Type 0 where
    found : r.0 ≡ pick xs
    same_head : r.1.0.head ≡ q.head
    chain : Chain r.1.1 x (x ∷ remove xs)
    last : LastIs r.1.0.tail (x ∷ remove xs)
    counted : r.1.0.count ≡ (if present xs then count_dec q.count else q.count)
    same : (a : Ptr) → NotIn a (x ∷ xs) → r.1.1 a ≡ l a

  abbrev spliced : Queue → Links → Ptr → Ptr → Ptr × State
  spliced q l x y = (
    y,
    (
      record { head = q.head; tail = if q.tail == y then x else q.tail; count = count_dec q.count },
      assign (assign l x (l y)) y null,
    ),
  )

  unlink-mid :
      (q : Queue) (l : Links) (x y : Ptr)
      → y ≢ q.head
      → take_out y (unlink q l x y) ≡ spliced q l x y
  unfolding unlink take_out
  unlink-mid q l x y ne = rw (==_ne y q.head ne)

  spliced-links : (l : Links) (x y : Ptr) → x ≢ y → assign (assign l x (l y)) y null x ≡ l y
  unfolding assign
  spliced-links l x y ne = ground arith

  spliced-other :
      (l : Links) (x y a : Ptr) → a ≢ x → a ≢ y → assign (assign l x (l y)) y null a ≡ l a
  unfolding assign
  spliced-other l x y a n m = ground arith

  spliced-last :
      (t x y : Ptr) (ys : List Ptr)
      → NotIn y ys
      → LastIs t (y ∷ ys)
      → LastIs (if t == y then x else t) (x ∷ ys)
  spliced-last t x y [] new e = rw (e, ==_refl y)
  spliced-last t x y (z ∷ zs) new e =
      subst (λ u. LastIs u (z ∷ zs)) (rw (==_ne t y (λ h. last-ne y t z zs new e (sym h)))) e

  spliced-Searched :
      (q : Queue) (l : Links) (x y : Ptr) (ys : List Ptr)
      → (payload y == pkt) ≡ true
      → Chain l x (x ∷ y ∷ ys)
      → LastIs q.tail (y ∷ ys)
      → Searched q l x (y ∷ ys) (spliced q l x y)
  spliced-Searched q l x y ys hit (e, ne, new, (e', ne', new', c)) last = record {
    found = rw hit;
    same_head = refl;
    chain = rw hit (
      refl,
      ne,
      new.1,
      rw (spliced-links l x y new.0)
          (frame (assign l x (l y)) y null (l y) ys new' (frame l x (l y) (l y) ys new.1 c)),
    );
    last = rw hit (spliced-last q.tail x y ys new' last);
    counted = rw hit;
    same = λ a out. spliced-other l x y a out.0 out.1.0;
  }

  missed-Searched :
      (q : Queue) (l : Links) (x y : Ptr) (ys : List Ptr) {r : Ptr × State}
      → (payload y == pkt) ≡ false
      → Chain l x (x ∷ y ∷ ys)
      → Searched q l y ys r
      → Searched q l x (y ∷ ys) r
  missed-Searched q l x y ys miss (e, ne, new, (e', ne', new', c)) rest = record {
    found = rw miss rest.found;
    same_head = rest.same_head;
    chain =
        rw miss (refl, ne, (new.0, NotIn-remove x ys new.1), rw (rest.same x new, e') rest.chain);
    last = rw miss rest.last;
    counted = rw miss rest.counted;
    same = λ a out. rest.same a out.1;
  }

  abbrev Found : ℕ → Queue → Links → Ptr → Ptr → List Ptr → Type 0
  Found fuel q l x curr xs =
      (r : Ptr × State) × (search_from fuel q l payload pkt x curr ≡ some r) × Searched q l x xs r

  search_from-Searched :
      (fuel : ℕ) (q : Queue) (l : Links) (x curr : Ptr) (xs : List Ptr)
      → length xs < fuel
      → curr ≡ l x
      → Chain l x (x ∷ xs)
      → LastIs q.tail (x ∷ xs)
      → NotIn q.head xs
      → Found fuel q l x curr xs
  unfolding search_from
  search_from-Searched zero q l x curr xs h ec c last out = absurd (omega arith)
  search_from-Searched (suc fuel) q l x curr [] h ec c last out = (
    (null, (q, l)),
    rw (ec, c.3),
    record {
      found = refl;
      same_head = refl;
      chain = c;
      last = last;
      counted = refl;
      same = λ a o. refl;
    },
  )
  search_from-Searched (suc fuel) q l x curr (y ∷ ys) h ec c last out =
      let at : curr ≡ y = ec ∙ c.3.0 in
      rw (at, ==_ne y null c.3.1)
        (elim (Bool-cases (payload y == pkt)) [
          | inl hit ↦ rw hit (
            spliced q l x y,
            ap some (unlink-mid q l x y (λ e. out.0 (sym e))),
            spliced-Searched q l x y ys hit c last,
          )
          | inr miss ↦ rw miss (
              let (r, runs, rest) =
                search_from-Searched fuel q l y (l y) ys (omega arith) refl
                  (refl, c.3.1, c.3.2, c.3.3) last out.1 in
              (r, runs, missed-Searched q l x y ys miss c rest))
        ])

  gone : (xs : List Ptr) → present xs ≡ true → length (remove xs) + 1 ≡ length xs
  gone xs e = ap (λ b. length (remove xs) + (if b then 1 else 0)) (sym e) ∙ length-remove xs

  whole : (xs : List Ptr) → present xs ≡ false → length (remove xs) + 0 ≡ length xs
  whole xs e = ap (λ b. length (remove xs) + (if b then 1 else 0)) (sym e) ∙ length-remove xs

  -- The count after a search through `xs`, of which one at most is taken.
  count_after :
      (n : ℕ) (xs : List Ptr)
      → n ≡ suc (length xs) % 65536
      → (if present xs then count_dec n else n) ≡ suc (length (remove xs)) % 65536
  count_after n xs h = elim (Bool-cases (present xs)) [
    | inl e ↦ rw e (omega (arith, gone xs e))
    | inr e ↦ rw e (omega (arith, whole xs e))
  ]

  abbrev pub Adv : ℕ → Queue → Links → List Ptr → Type 0
  Adv fuel q l xs =
      (r : Ptr × State) × (dequeue_adv fuel q l payload pkt ≡ some r)
      × (r.0 ≡ pick xs)
      × IsQueue r.1.0 r.1.1 (remove xs)

  abbrev at_node : Ptr → Ptr → ℕ → Queue
  at_node x t n = record { head = x; tail = t; count = n }

  at_head :
      (l : Links) (x t : Ptr) (n : ℕ)
      → take_out x (unlink (at_node x t n) l null x)
        ≡ (x, (at_node (l x) t (count_dec n), assign l x null))
  unfolding unlink take_out
  at_head l x t n = rw (==_refl x)

  behind : (t x : Ptr) (xs : List Ptr) → LastIs t (x ∷ xs) → LastIs t xs
  behind t x [] h = tt
  behind t x (y ∷ ys) h = h

  -- The search that starts at the first buffer `x`.
  search-head :
      (fuel n : ℕ) (l : Links) (x t : Ptr) (xs : List Ptr)
      → length xs < fuel
      → IsQueue (at_node x t n) l (x ∷ xs)
      → (r : Ptr × State) × (search_from (suc fuel) (at_node x t n) l payload pkt null x ≡ some r)
        × (r.0 ≡ pick (x ∷ xs))
        × IsQueue r.1.0 r.1.1 (remove (x ∷ xs))
  unfolding search_from
  search-head fuel n l x t xs h is =
      let (e, ne, new, c) = is.chain in
      rw (==_ne x null ne) (elim (Bool-cases (payload x == pkt)) [
        | inl hit ↦ rw hit (
          (x, (at_node (l x) t (count_dec n), assign l x null)),
          ap some (at_head l x t n),
          refl,
          record {
            chain = frame l x null (l x) xs new c;
            last = behind t x xs is.last;
            counted = omega (arith, is.counted);
          },
        )
        | inr miss ↦ rw miss (
            let (r, runs, rest) =
              search_from-Searched fuel (at_node x t n) l x (l x) xs h refl (refl, ne, new, c)
                is.last new in
            (
              r,
              runs,
              rest.found,
              record {
                chain = rw (rest.same_head) rest.chain;
                last = rest.last;
                counted = rest.counted ∙ count_after n xs is.counted;
              },
            ))
      ])

  Adv-cons :
      (fuel n : ℕ) (l : Links) (x t : Ptr) (xs : List Ptr)
      → length xs < fuel
      → IsQueue (at_node x t n) l (x ∷ xs)
      → Adv (suc fuel) (at_node x t n) l (x ∷ xs)
  unfolding dequeue_adv
  Adv-cons fuel n l x t xs h is = rw (==_ne x null is.chain.1) (search-head fuel n l x t xs h is)

  -- With fuel for more than the buffers of the queue, `a_netbuf_dequeue_adv` returns the first
  -- buffer with the payload, or NULL if there is none, and leaves the others queued in order.
  pub dequeue_adv_lem :
      (fuel : ℕ) (q : Queue) (l : Links) (xs : List Ptr)
      → length xs < fuel
      → IsQueue q l xs
      → Adv fuel q l xs
  dequeue_adv_lem fuel q l [] h is = ((null, (q, l)), nil_runs q l fuel is.chain, refl, is)
    where
      nil_runs :
          (q : Queue) (l : Links) (fuel : ℕ)
          → q.head ≡ null
          → dequeue_adv fuel q l payload pkt ≡ some (null, (q, l))
      nil_runs q l fuel e = unfold dequeue_adv in (rw e)
  dequeue_adv_lem zero q l (x ∷ xs) h is = absurd (omega arith)
  dequeue_adv_lem (suc fuel) q l (x ∷ xs) h is =
      let starts = λ (p : Ptr). IsQueue (at_node p q.tail q.count) l (x ∷ xs) in
      let wants = λ (p : Ptr). Adv (suc fuel) (at_node p q.tail q.count) l (x ∷ xs) in
      subst wants (sym is.chain.0)
        (Adv-cons fuel q.count l x q.tail xs (omega arith) (subst starts is.chain.0 is))

-- Each round of the purge frees the buffer at the head.
purge_loop_lem :
    (xs freed : List Ptr) (p : Ptr) (l : Links)
    → Chain l p xs
    → (l' : Links) × (purge_loop (length xs) p l freed ≡ some (freed ++ xs, l'))
unfolding purge_loop
purge_loop_lem [] freed p l c = (l, rw append-nil)
purge_loop_lem (x ∷ xs) freed p l (e, ne, new, c) =
    rw (e, ==_ne x null ne)
      (let (l', runs) =
          purge_loop_lem xs (freed ++ x ∷ []) (l x) (assign l x null)
            (frame l x null (l x) xs new c) in
        (l', runs ∙ ap (λ t. some (t, l')) (append_assoc freed (x ∷ []) xs)))

-- `a_netbuf_purge_queue` frees each buffer of a queue of fewer than 65536 once, in order, and
-- leaves the queue empty: it does not follow a NULL link.
purge_queue_lem :
    (q : Queue) (l : Links) (xs : List Ptr)
    → length xs < 65536
    → IsQueue q l xs
    → (r : State) × (purge_queue q l ≡ some (xs, r)) × IsQueue r.0 r.1 [] × (r.0.count ≡ 0)
unfolding purge_queue
purge_queue_lem q l xs h is =
    let n : q.count ≡ length xs = omega (arith, is.counted) in
    let (l', runs) = purge_loop_lem xs [] q.head l is.chain in
    let loops = λ (k : ℕ). purge_loop k q.head l [] ≡ some (xs, l') in
    (
      (record { head = null; tail = null; count = 0 }, l'),
      rw (subst loops (sym n) runs, purge_queue),
      record { chain = refl; last = tt; counted = refl },
      refl,
    )
