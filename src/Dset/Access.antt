-- ===== src/Dset/Access.antt =====
-- Reading and writing the buffer of a data set.
use atheros_wifi.Prelude.{
  ℕ, ◌+◌, ◌-◌, ◌^◌, ◌≤◌, ◌<◌, min, ◌≡◌, refl, sym, ap, ◌∙◌, true, false, ◌&&◌, none, some, List,
  ◌++◌, arith, leb, length, take, drop, length-append, length-take, length-drop, take-append,
  drop-append,
}
use atheros_wifi.Dset.{HostDset, wrt_len, dset_write, dset_read}

-- A data set whose buffer has the length that the slot says.
abbrev pub HasBuffer : HostDset → List ℕ → Type 0
HasBuffer s buffer = (s.data_ptr ≡ some buffer) × (length buffer ≡ s.length) × (s.length < 2 ^ 32)

length-splice :
    (offset n : ℕ) (xs ys : List ℕ)
    → offset + n ≤ length xs
    → n ≤ length ys
    → length (take offset xs ++ (take n ys ++ drop (offset + n) xs)) ≡ length xs
length-splice offset n xs ys h k = omega (
  arith,
  length-append (take offset xs) (take n ys ++ drop (offset + n) xs),
  length-append (take n ys) (drop (offset + n) xs),
  length-take offset xs,
  length-take n ys,
  length-drop (offset + n) xs,
)

take-drop-splice :
    (offset n : ℕ) (xs ys zs : List ℕ)
    → offset ≤ length xs
    → n ≤ length ys
    → take n (drop offset (take offset xs ++ (take n ys ++ zs))) ≡ take n ys
take-drop-splice offset n xs ys zs h k =
    ap (λ i. take n (drop i (take offset xs ++ (take n ys ++ zs)))) (sym (is offset xs h))
    ∙ ap (take n) (drop-append (take offset xs) (take n ys ++ zs))
    ∙ ap (λ i. take i (take n ys ++ zs)) (sym (is n ys k))
    ∙ take-append (take n ys) zs
  where
    is : (i : ℕ) (us : List ℕ) → i ≤ length us → length (take i us) ≡ i
    is i us h = omega (arith, length-take i us)

-- A write from within the data set, with as many bytes from the caller as it asks for and an end
-- below 2 ^ 32, stores the bytes that fit, and a read at the same place gives them back; the data
-- set keeps its length and a buffer of that length.
pub dset_read-dset_write :
    (s : HostDset) (buffer p_data : List ℕ) (offset size : ℕ)
    → HasBuffer s buffer
    → offset ≤ s.length
    → offset + size < 2 ^ 32
    → size ≤ length p_data
    → let n = min size (s.length - offset) in
      (s' : HostDset) × (buffer' : List ℕ) × (dset_write s p_data offset size ≡ some (n, s'))
      × (dset_read s' offset size ≡ some (n, take n p_data))
      × HasBuffer s' buffer'
      × (s'.length ≡ s.length)
unfolding dset_write dset_read
dset_read-dset_write s buffer p_data offset size (p, l, lt) h k w =
    let n = min size (s.length - offset) in
    let buffer' = take offset buffer ++ (take n p_data ++ drop (offset + n) buffer) in
    let fit : wrt_len s offset size ≡ n = ground arith in
    let inside : (leb (offset + n) (length buffer) && leb n (length p_data)) ≡ true =
      ground arith in
    let same : length buffer' ≡ length buffer =
      length-splice offset n buffer p_data (omega arith) (omega arith) in
    let inside' : leb (offset + n) (length buffer') ≡ true = ground (arith, same) in
    (
      record s { data_ptr = some buffer' },
      buffer',
      rw (p, fit, inside) refl,
      rw (fit, inside')
          (ap (λ bs. some (n, bs))
            (take-drop-splice offset n buffer p_data _ (omega arith) (omega arith))),
      (refl, same ∙ l, lt),
      refl,
    )

-- A write that begins past the end of the data set, and ends below 2 ^ 32, runs out of its buffer:
-- the length left over is computed on 32 bits and wraps around.
pub dset_write-outside :
    (s : HostDset) (buffer p_data : List ℕ) (offset size : ℕ)
    → HasBuffer s buffer
    → s.length < offset
    → offset + size < 2 ^ 32
    → dset_write s p_data offset size ≡ none
unfolding dset_write
dset_write-outside s buffer p_data offset size (p, l, lt) h k =
    let n = wrt_len s offset size in
    let far : length buffer < offset + n = ground arith in
    let outside : leb (offset + n) (length buffer) ≡ false = ground arith in rw (p, outside) refl
