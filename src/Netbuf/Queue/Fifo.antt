-- ===== src/Netbuf/Queue/Fifo.antt =====
-- A queue of buffers behaves as the list that it stands for.
use atheros_wifi.Prelude.{
  ◌≡◌, refl, sym, ◌≢◌, Bool, false, List, [], ◌∷◌, ◌++◌, arith, if◌then◌else◌, ==_refl, ==_ne,
  length-append,
}
use mathlib.Core.Path.{subst}
use atheros_wifi.Netbuf.Queue.{
  count_dec, Ptr, null, Links, assign, Queue, queue_init, enqueue, prequeue, dequeue,
}
use atheros_wifi.Netbuf.Queue.Chain.{
  NotIn, LastIs, IsQueue, frame, last-ne, LastIs-append, extend, Chain-head,
}

-- `a_netbuf_queue_init` makes the empty queue.
pub queue_init-IsQueue : (l : Links) → IsQueue queue_init l []
unfolding queue_init
queue_init-IsQueue l = record { chain = refl; last = tt; counted = refl }

-- `a_netbuf_enqueue` puts a buffer that is not NULL and not queued behind the others.
enqueue-IsQueue :
    (q : Queue) (l : Links) (xs : List Ptr) (req : Ptr)
    → IsQueue q l xs
    → req ≢ null
    → NotIn req xs
    → IsQueue (enqueue q l req).0 (enqueue q l req).1 (xs ++ req ∷ [])
unfolding enqueue
enqueue-IsQueue q l [] req is nr out = rw is.chain (record {
  chain = (refl, nr, tt, unfold assign in ground arith);
  last = refl;
  counted = omega (arith, is.counted);
})
enqueue-IsQueue q l (x ∷ xs) req is nr out = rw (Chain-head l q.head x xs is.chain) (record {
  chain = extend l q.tail req q.head x xs is.chain is.last nr out;
  last = LastIs-append req (x ∷ xs);
  counted = omega (arith, is.counted, length-append {0} xs (req ∷ []));
})

assign_self : (l : Links) (p v : Ptr) → assign l p v p ≡ v
unfolding assign
assign_self l p v = rw (==_refl p)

-- The head of a queue that is not empty decides the tests for NULL.
kept {ℓ} : {A : Type ℓ} (b : Bool) (u v : A) → b ≡ false → (if b then u else v) ≡ v
kept b u v e = rw e

-- `a_netbuf_prequeue` puts a buffer that is not NULL and not queued in front of the others.
prequeue-IsQueue :
    (q : Queue) (l : Links) (xs : List Ptr) (req : Ptr)
    → IsQueue q l xs
    → req ≢ null
    → NotIn req xs
    → IsQueue (prequeue q l req).0 (prequeue q l req).1 (req ∷ xs)
unfolding prequeue
prequeue-IsQueue q l [] req is nr out = record {
  chain = (refl, nr, tt, unfold assign in ground arith);
  last = rw is.chain;
  counted = omega (arith, is.counted);
}
prequeue-IsQueue q l (x ∷ xs) req is nr out = record {
  chain = (
    refl,
    nr,
    out,
    rw (assign_self l req q.head) (frame l req q.head q.head (x ∷ xs) out is.chain),
  );
  last =
      subst (λ t. LastIs t (x ∷ xs)) (sym (kept _ req q.tail (Chain-head l q.head x xs is.chain)))
        is.last;
  counted = omega (arith, is.counted);
}

-- A buffer that is not NULL and not queued goes behind the others by `a_netbuf_enqueue`, and in
-- front of them by `a_netbuf_prequeue`.
ends-IsQueue :
    (q : Queue) (l : Links) (xs : List Ptr) (req : Ptr)
    → IsQueue q l xs
    → req ≢ null
    → NotIn req xs
    → IsQueue (enqueue q l req).0 (enqueue q l req).1 (xs ++ req ∷ [])
      × IsQueue (prequeue q l req).0 (prequeue q l req).1 (req ∷ xs)
ends-IsQueue q l xs req is nr out =
    (enqueue-IsQueue q l xs req is nr out, prequeue-IsQueue q l xs req is nr out)

-- `a_netbuf_dequeue` on an empty queue returns NULL and changes nothing.
pub dequeue-nil : (q : Queue) (l : Links) → IsQueue q l [] → dequeue q l ≡ (null, (q, l))
unfolding dequeue
dequeue-nil q l is = rw is.chain

dequeue_one :
    (q : Queue) (l : Links) (x : Ptr)
    → q.head ≡ x
    → x ≢ null
    → q.tail ≡ x
    → dequeue q l
      ≡ (x, (record { head = null; tail = null; count = count_dec q.count }, assign l x null))
unfolding dequeue
dequeue_one q l x e ne t = rw (t, e, ==_ne x null ne, ==_refl x)

dequeue_more :
    (q : Queue) (l : Links) (x : Ptr)
    → q.head ≡ x
    → x ≢ null
    → x ≢ q.tail
    → dequeue q l
      ≡ (x, (record { head = l x; tail = q.tail; count = count_dec q.count }, assign l x null))
unfolding dequeue
dequeue_more q l x e ne t = rw (e, ==_ne x null ne, ==_ne q.tail x (λ h. t (sym h)))

-- `a_netbuf_dequeue` takes the first buffer and leaves the rest, in order; that buffer's link is
-- cleared.
dequeue-cons :
    (q : Queue) (l : Links) (x : Ptr) (xs : List Ptr)
    → IsQueue q l (x ∷ xs)
    → ((dequeue q l).0 ≡ x)
      × IsQueue (dequeue q l).1.0 (dequeue q l).1.1 xs
      × ((dequeue q l).1.1 x ≡ null)
dequeue-cons q l x [] is = rw (dequeue_one q l x is.chain.0 is.chain.1 is.last) (
  refl,
  record { chain = refl; last = tt; counted = omega (arith, is.counted) },
  assign_self l x null,
)
dequeue-cons q l x (y ∷ ys) is =
    let (e, ne, new, c) = is.chain in
    rw (dequeue_more q l x e ne (last-ne x q.tail y ys new is.last)) (
      refl,
      record {
        chain = frame l x null (l x) (y ∷ ys) new c;
        last = is.last;
        counted = omega (arith, is.counted);
      },
      assign_self l x null,
    )
