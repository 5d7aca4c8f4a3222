-- ===== src/Netbuf/Queue/Tests.antt =====
-- Runs of the queues, and the theorems at concrete queues.
use atheros_wifi.Prelude.{ℕ, ◌+◌, ◌≡◌, refl, some, [], ◌∷◌, arith, ◌==◌, if◌then◌else◌}
use atheros_wifi.Netbuf.Queue.{Ptr, Links, Queue, State, search_from, dequeue_adv}
use atheros_wifi.Netbuf.Queue.Chain.{IsQueue}
use atheros_wifi.Netbuf.Queue.Select.{dequeue_adv_lem, Adv}

-- 10 links to 20, and 20 to 30.
abbrev three_links : Links
three_links p = if p == 10 then 20 else (if p == 20 then 30 else 0)

abbrev three : Queue
three = record { head = 10; tail = 30; count = 3 }

three-IsQueue : IsQueue three three_links (10 ∷ 20 ∷ 30 ∷ [])
three-IsQueue = record { chain = ground arith; last = refl; counted = refl }

-- The payload of a buffer is its address plus 5.
abbrev payload : Ptr → ℕ
payload p = p + 5

takes_middle :
    (r : State) × (dequeue_adv 9 three three_links payload 25 ≡ some (20, r))
    × (r.0 ≡ record { head = 10; tail = 30; count = 2 })
unfolding dequeue_adv search_from
takes_middle = (_, refl, refl)

dequeue_adv_lem_example : Adv payload 35 4 three three_links (10 ∷ 20 ∷ 30 ∷ [])
dequeue_adv_lem_example =
    dequeue_adv_lem payload 35 4 three three_links (10 ∷ 20 ∷ 30 ∷ []) (omega arith) three-IsQueue
