-- ===== src/Netbuf/Queue.antt =====
-- The queues of network buffers: a chain through the `queueLink` field of each buffer.
pub mod Chain
pub mod Fifo
pub mod Select
mod Tests
use atheros_wifi.Prelude.{
  [], ℕ, zero, suc, ◌+◌, ◌-◌, ◌%◌, Option, none, some, List, ◌∷◌, ◌++◌, ◌==◌, if◌then◌else◌,
}

-- A pointer to an A_NETBUF, and NULL.
abbrev pub Ptr : Type 0
Ptr = ℕ

abbrev pub null : Ptr
null = 0

-- The `queueLink` field of every buffer.
abbrev pub Links : Type 0
Links = Ptr → Ptr

pub assign : Links → Ptr → Ptr → Links
assign l p q a = if a == p then q else l a

-- `A_NETBUF_QUEUE_T`; `count` is a uint16_t.
pub record Queue : Type 0 where
  pub head : Ptr
  pub tail : Ptr
  pub count : ℕ

abbrev pub count_inc : ℕ → ℕ
count_inc n = (n + 1) % 65536

abbrev pub count_dec : ℕ → ℕ
count_dec n = (n + 65536 - 1) % 65536

abbrev pub State : Type 0
State = Queue × Links

pub queue_init : Queue
queue_init = record { head = null; tail = null; count = 0 }

-- `a_netbuf_enqueue`. Interrupts are off throughout, so it is one step.
pub enqueue : Queue → Links → Ptr → State
enqueue q l req =
    let linked = if q.head == null then l else assign l q.tail req in
    (
      record {
        head = if q.head == null then req else q.head;
        tail = req;
        count = count_inc q.count;
      },
      assign linked req null,
    )

pub prequeue : Queue → Links → Ptr → State
prequeue q l req = (
  record { head = req; tail = if q.head == null then req else q.tail; count = count_inc q.count },
  assign l req q.head,
)

pub dequeue : Queue → Links → Ptr × State
dequeue q l = if q.head == null then (null, (q, l)) else (
  q.head,
  (
    record {
      head = if q.tail == q.head then null else l q.head;
      tail = if q.tail == q.head then null else q.tail;
      count = count_dec q.count;
    },
    assign l q.head null,
  ),
)

-- What `a_netbuf_dequeue_adv` does with the matching buffer `curr`, found behind `prev`.
pub unlink : Queue → Links → Ptr → Ptr → State
unlink q l prev curr =
    if curr == q.head
    then (record q { head = l curr }, l)
    else (record q { tail = if q.tail == curr then prev else q.tail }, assign l prev (l curr))

-- The end of `a_netbuf_dequeue_adv`.
pub take_out : Ptr → State → Ptr × State
take_out curr (q, l) = (curr, (record q { count = count_dec q.count }, assign l curr null))

-- The search: `payload` is the `data` field of every buffer. `none` means that the fuel ran out.
pub search_from : ℕ → Queue → Links → (Ptr → ℕ) → ℕ → Ptr → Ptr → Option (Ptr × State)
unfolding unlink take_out
search_from zero q l payload pkt prev curr = none
search_from (suc fuel) q l payload pkt prev curr =
    let rest = search_from fuel q l payload pkt curr (l curr) in
    if curr == null
    then some (null, (q, l))
    else (if payload curr == pkt then some (take_out curr (unlink q l prev curr)) else rest)

-- `prev` is not set before the first round; that round does not read it.
pub dequeue_adv : ℕ → Queue → Links → (Ptr → ℕ) → ℕ → Option (Ptr × State)
dequeue_adv fuel q l payload pkt =
    if q.head == null then some (null, (q, l)) else search_from fuel q l payload pkt null q.head

-- The loop of `a_netbuf_purge_queue`: `count` rounds, each of which gives a buffer to
-- `a_netbuf_free`; the list is those buffers, first to last. `none` is a NULL dereference.
pub purge_loop : ℕ → Ptr → Links → List Ptr → Option (List Ptr × Links)
purge_loop zero head l freed = some (freed, l)
purge_loop (suc n) head l freed =
    let rest = purge_loop n (l head) (assign l head null) (freed ++ (head ∷ [])) in
    if head == null then none else rest

pub purge_queue : Queue → Links → Option (List Ptr × State)
purge_queue q l = elim (purge_loop q.count q.head l []) [
  | none ↦ none
  | some (freed, l') ↦ some (freed, (record { head = null; tail = null; count = 0 }, l'))
]
