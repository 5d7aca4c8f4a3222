-- ===== src/Transmit/Purge.antt =====
-- Dropping the data packets of the queue.
use atheros_wifi.Prelude.{
  ◌%◌, ◌^◌, ◌<◌, ◌≡◌, refl, sym, ap, ◌∙◌, inl, inr, true, List, [], ◌∷◌, ◌++◌, arith, ltb,
  if◌then◌else◌, Bool-cases, length, ran,
}
use mathlib.Core.Path.{ap₂}
use mathlib.Core.List.{append_assoc, append-nil}
use atheros_wifi.Netbuf.Buffer.{Netbuf}
use atheros_wifi.Transmit.{Tx, has_callback, drop_loop, drop_tx_data_packets}

-- The requests of the endpoints 0 and 1, and those of the others.
abbrev pub control : List Netbuf → List Netbuf
control [] = []
control (r ∷ rs) = let rest = control rs in if ltb 1 r.trans.epid then rest else r ∷ rest

abbrev pub data_of : List Netbuf → List Netbuf
data_of [] = []
data_of (r ∷ rs) = let rest = data_of rs in if ltb 1 r.trans.epid then r ∷ rest else rest

-- Every request has a callback.
abbrev pub HaveCallbacks : List Netbuf → Type 0
HaveCallbacks [] = Unit
HaveCallbacks (r ∷ rs) = (has_callback r ≡ true) × HaveCallbacks rs

drop_loop_lem :
    (xs ys done : List Netbuf)
    → HaveCallbacks xs
    → drop_loop (length xs) (xs ++ ys) done ≡ ran (ys ++ control xs, done ++ data_of xs)
unfolding drop_loop
drop_loop_lem [] ys done h = ap₂ (λ q d. ran (q, d)) (sym (append-nil ys)) (sym (append-nil done))
drop_loop_lem (x ∷ xs) ys done (c, h) = elim (Bool-cases (ltb 1 x.trans.epid)) [
  | inl y ↦
      rw (y, c)
        (drop_loop_lem xs ys (done ++ (x ∷ [])) h
          ∙ ap (λ d. ran (ys ++ control xs, d)) (append_assoc done (x ∷ []) (data_of xs)))
  | inr n ↦
      rw (n, append_assoc xs ys (x ∷ []))
        (drop_loop_lem xs (ys ++ (x ∷ [])) done h
          ∙ ap (λ q. ran (q, done ++ data_of xs)) (append_assoc ys (x ∷ []) (control xs)))
]

-- On a queue of fewer than 2 ^ 16 requests that all have a callback, `Driver_DropTxDataPackets`
-- completes the requests of the data endpoints, and leaves those of the control endpoints in the
-- queue; both keep their order.
pub drop_tx_data_packets_lem :
    (t : Tx)
    → length t.tx_queue < 2 ^ 16
    → HaveCallbacks t.tx_queue
    → drop_tx_data_packets t
      ≡ ran (record t {
        tx_queue = control t.tx_queue;
        completed = t.completed ++ data_of t.tx_queue;
      })
unfolding drop_tx_data_packets
drop_tx_data_packets_lem t h c =
    let fits : length t.tx_queue % 2 ^ 16 ≡ length t.tx_queue = omega arith in
    let whole =
      ap (λ q. drop_loop (length t.tx_queue) q t.completed) (sym (append-nil t.tx_queue))
      ∙ drop_loop_lem t.tx_queue [] t.completed c in
    rw (fits, whole) refl
