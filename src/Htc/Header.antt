-- ===== src/Htc/Header.antt =====
-- A frame from the target, taken apart; and a frame that the host sends.
use atheros_wifi.Prelude.{
  ℕ, zero, suc, ◌+◌, ◌-◌, ◌/◌, ◌%◌, ◌^◌, ◌≤◌, ◌<◌, ◌≡◌, refl, sym, ap, ◌∙◌, ◌≢◌, inl, inr, true,
  false, ◌&&◌, Option, List, ◌++◌, arith, ltb, leb, ◌==◌, if◌then◌else◌, lt→ltb, ==_refl, ==_ne,
  Bool-cases, Option-cases, length, get_or, take, drop, length-append, take-append, drop-append,
  Returns, Returns-mono, Returns-bind, Mem, load, length-load, take-load, drop-load,
  load-store_self,
}
use mathlib.Core.Path.{ap₂}
use mathlib.Core.List.{append_assoc}
use atheros_wifi.Util.{get_endpoint}
use atheros_wifi.Netbuf.Buffer.{Netbuf, to_len, sum_frags, pull, trim}
use atheros_wifi.Netbuf.Buffer.Room.{IsBuffer, size_of, Keeps, pull_lem, trim_lem}
use atheros_wifi.Netbuf.Buffer.Bytes.{content}
use atheros_wifi.Htc.{Driver}
use atheros_wifi.Htc.Account.{AreEndpoints, Accounted, account, AreEndpoints→Accounted}
use atheros_wifi.Htc.Frame.{
  Looks, ok, htc_hdr_length, hdr, get16, get32, no_looks, trim_padding, need_credit_update,
  process_trailer, strip_trailer, process_recv_header, send_packet,
}
use atheros_wifi.Htc.Trailer.{Record, encode, AreRecords, last_look, process_trailer_lem}

module _ (b : Netbuf) (v : IsBuffer b) (one : b.num_frags ≡ 0) where
  -- The length of a buffer without further fragments.
  pub to_len-size_of : to_len b ≡ size_of b
  unfolding to_len sum_frags
  to_len-size_of = elim (Option-cases b.native_orig) [
    | inl y ↦ rw (y, one) (omega (arith, v))
    | inr (_, y) ↦ rw (y, one) (omega (arith, v))
  ]

-- After `HTC_Start`, a packet in one valid buffer of fewer than 2 ^ 16 bytes, header included,
-- that asks for at least one credit and no more than its endpoint has, is sent: its endpoint loses
-- those credits, from its account too, and every other endpoint is as it was; the header names the
-- endpoint, the length and the sequence number, and asks for an update exactly where no credit is
-- left.
pub send_packet_lem :
    (d : Driver) (m : Mem) (b : Netbuf)
    → AreEndpoints d
    → d.htc_start ≡ true
    → 0 < b.trans.credits
    → b.trans.credits ≤ (d.ep (get_endpoint b.trans.epid)).credits
    → IsBuffer b
    → b.num_frags ≡ 0
    → htc_hdr_length ≤ size_of b
    → size_of b < 2 ^ 16
    → Returns
        (λ (s, d', m').
          let i = get_endpoint b.trans.epid in
          (s ≡ ok)
          × ((d'.ep i).credits + b.trans.credits ≡ (d.ep i).credits)
          × ((account (d'.ep i) + b.trans.credits) % 2 ^ 8 ≡ account (d.ep i))
          × ((j : ℕ) → j ≢ i → d'.ep j ≡ d.ep j)
          × (load m' b.start htc_hdr_length
              ≡ hdr
                  (b.trans.epid % 2 ^ 8)
                  (if (d.ep i).credits == b.trans.credits then need_credit_update else 0)
                  (size_of b - htc_hdr_length)
                  0
                  (d.ep i).seq_no))
        (send_packet d m b)
unfolding send_packet
send_packet_lem d m b v s p h w one long short =
    let i = get_endpoint b.trans.epid in
    let e = d.ep i in
    let lt = (v i).credits_lt in
    let some_left : (e.credits == 0) ≡ false = ground arith in
    let left : (e.credits + 2 ^ 8 - b.trans.credits % 2 ^ 8) % 2 ^ 8 ≡ e.credits - b.trans.credits =
      omega arith in
    let size : (to_len b % 2 ^ 16 + 2 ^ 16 - htc_hdr_length) % 2 ^ 16 ≡ size_of b - htc_hdr_length =
      omega (arith, to_len-size_of b w one) in
    let flag : (e.credits - b.trans.credits == 0) ≡ (e.credits == b.trans.credits) = ground arith in
    let rpt = (v i).rpt_lt in
    let int = (v i).int_lt in
    rw (s, some_left, lt→ltb 0 b.trans.credits p, left, size, flag, ==_refl i)
      (refl, omega arith, omega arith, λ j n. rw (==_ne j i n) refl, load-store_self m b.start _)

-- Bytes within a block that is loaded.
slice :
    (m : Mem) (a k n size : ℕ) → k + n ≤ size → load m (a + k) n ≡ take n (drop k (load m a size))
slice m a k n size h =
    sym (take-load m (a + k) n (size - k - n))
    ∙ ap (λ j. take n (load m (a + k) j)) (omega arith)
    ∙ ap (take n) (sym (drop-load m a k (size - k)))
    ∙ ap (λ j. take n (drop k (load m a j))) (omega arith)

byte : (m : Mem) (a i size : ℕ) → i < size → m (a + i) ≡ get_or (load m a size) i 0
byte m a i zero h = absurd (omega arith)
byte m a zero (suc size) h = ap m (omega arith)
byte m a (suc i) (suc size) h = ap m (omega arith) ∙ byte m (a + 1) i size (omega arith)

-- A part of a block that is loaded in three parts.
part :
    (m : Mem) (a k size : ℕ) (xs ys zs : List ℕ)
    → load m a size ≡ xs ++ (ys ++ zs)
    → length xs ≡ k
    → length xs + length ys ≤ size
    → load m (a + k) (length ys) ≡ ys
part m a k size xs ys zs e l h =
    slice m a k (length ys) size (omega (arith, l))
    ∙ rw (e, sym l, drop-append xs (ys ++ zs)) (take-append ys zs)

-- A frame that the target sends: a header that is marked for a trailer, the payload, the trailer
-- of at most 255 bytes, and padding.
pub record IsFrame (m : Mem) (b : Netbuf) (body : List ℕ) (rs : List Record) (pad : List ℕ)
    : Type 0 where
  pub id : ℕ
  pub flags : ℕ
  pub control1 : ℕ
  pub bytes :
      content m b
      ≡ hdr id flags (length body + length (encode rs)) (length (encode rs)) control1
        ++ (body ++ (encode rs ++ pad))
  pub marked : flags / 2 % 2 ≡ 1
  pub least : 2 ≤ length (encode rs)
  pub most : length (encode rs) < 2 ^ 8
  pub look_ahead : get32 m b.start ≡ b.trans.lookahead

module _ (d : Driver) (m : Mem) (b : Netbuf) (looks : Option Looks) (body : List ℕ)
    (rs : List Record) (pad : List ℕ) (f : IsFrame m b body rs pad) (v : IsBuffer b)
    (one : b.num_frags ≡ 0) (at : 0 < b.start) (short : size_of b < 2 ^ 16) where
  abbrev front : List ℕ
  front = hdr f.id f.flags (length body + length (encode rs)) (length (encode rs)) f.control1

  size_lem : size_of b ≡ 6 + (length body + (length (encode rs) + length pad))
  size_lem =
      sym (length-load m b.start (size_of b))
      ∙ ap length f.bytes
      ∙ omega (arith, length-append body (encode rs ++ pad), length-append (encode rs) pad)

  byte_lem : (i : ℕ) → i < 6 → m (b.start + i) ≡ get_or (front ++ (body ++ (encode rs ++ pad))) i 0
  byte_lem i h =
      byte m b.start i (size_of b) (omega (arith, size_lem)) ∙ ap (λ bs. get_or bs i 0) f.bytes

  payload_len_lem : get16 m (b.start + 2) ≡ length body + length (encode rs)
  payload_len_lem =
      let low = byte_lem 2 (omega arith) in
      let high : m (b.start + 2 + 1) ≡ (length body + length (encode rs)) / 2 ^ 8 % 2 ^ 8 =
        ap m (omega arith) ∙ byte_lem 3 (omega arith) in
      omega (arith, size_lem)

  trailer_lem :
      load m
        (b.start + 6 + (length body + length (encode rs)) - length (encode rs))
        (length (encode rs))
      ≡ encode rs
  trailer_lem =
      ap (λ a. load m a (length (encode rs))) (omega arith)
      ∙ part m b.start (6 + length body) (size_of b) (front ++ body) (encode rs) pad
          (f.bytes ∙ sym (append_assoc front body (encode rs ++ pad)))
          (omega (arith, length-append front body))
          (omega (arith, size_lem, length-append front body))

  body_lem : load m (b.start + 6) (length body) ≡ body
  body_lem =
      part m b.start 6 (size_of b) front body (encode rs ++ pad) f.bytes refl
        (omega (arith, size_lem))

  trim_pad :
      Returns
        (λ c.
          Keeps b c
          × (c.start ≡ b.start)
          × (c.tail ≡ b.start + 6 + (length body + length (encode rs))))
        (trim_padding b (length body + length (encode rs)))
  trim_pad =
      let total = to_len-size_of b v one in
      let pl = length body + length (encode rs) in
      elim (Bool-cases (ltb (pl + htc_hdr_length) (to_len b))) [
        | inl y ↦
            let big : pl + htc_hdr_length < to_len b = ground arith in
            rw y (
              Returns-mono _ (trim b (to_len b - (pl + htc_hdr_length)))
                (trim_lem b (to_len b - (pl + htc_hdr_length)) v (omega arith))
                λ c (k, t, s). (k, s, omega (arith, v)))
        | inr n ↦
            let small : to_len b ≤ pl + htc_hdr_length = ground arith in
            rw n ((v, refl, refl, refl, refl), refl, omega (arith, v, size_lem))
      ]

  abbrev Stripped : Driver × Option Looks × Netbuf → Type 0
  Stripped (d', looks', b') =
      Accounted d d' × (looks' ≡ last_look rs (no_looks looks)) × (content m b' ≡ body)

  strip_trailer_lem :
      (c : Netbuf) (w : AreEndpoints d) (good : AreRecords rs)
      → Keeps b c
      → c.start ≡ b.start
      → c.tail ≡ b.start + 6 + (length body + length (encode rs))
      → Returns Stripped (
          strip_trailer b.start
            (m (b.start + 1))
            (length body + length (encode rs))
            d
            m
            c
            (no_looks looks))
  strip_trailer_lem c w good (k, _, _, _, _) s t =
      let flag = byte_lem 1 (omega arith) in
      let marked : (m (b.start + 1) / 2 % 2 == 1) ≡ true = rw (flag, f.marked) refl in
      let control = byte_lem 4 (omega arith) in
      let n = length (encode rs) in
      let least = f.least in
      let fits : (leb 2 n && leb n (length body + n)) ≡ true = ground arith in
      rw (marked, control, fits, trailer_lem)
        (Returns-bind _ Stripped (process_trailer n (encode rs) (d, no_looks looks)) _
          (process_trailer_lem n rs d d (no_looks looks) (omega arith) good
            (AreEndpoints→Accounted d w))
          λ (d', looks') (a, l).
            Returns-bind _ Stripped (trim c n) _ (trim_lem c n k (omega arith))
              λ c' ((k', _, _, _, _), t', s').
                Returns-bind _ Stripped (pull c' htc_hdr_length) _
                  (pull_lem c' htc_hdr_length k' (omega arith))
                  λ c'' (_, s'', t''). (a, l, ap₂ (load m) (omega arith) (omega arith) ∙ body_lem))

-- A frame whose header is marked for a trailer, with whole records of the kinds that the target
-- may send in at most 255 bytes, padding behind it and the announced look-ahead, in one valid
-- buffer of fewer than 2 ^ 16 bytes: `Htc_ProcessRecvHeader` returns, leaves exactly the payload
-- in the buffer, keeps the credit account of every endpoint, and reports the look-ahead of the
-- last valid report, or none.
pub process_recv_header_lem :
    (d : Driver) (m : Mem) (b : Netbuf) (looks : Option Looks) (body : List ℕ) (rs : List Record)
    (pad : List ℕ)
    → IsFrame m b body rs pad
    → IsBuffer b
    → b.num_frags ≡ 0
    → 0 < b.start
    → size_of b < 2 ^ 16
    → AreEndpoints d
    → AreRecords rs
    → Returns
        (λ (d', looks', b').
          Accounted d d' × (looks' ≡ last_look rs (no_looks looks)) × (content m b' ≡ body))
        (process_recv_header d m b looks)
unfolding process_recv_header
process_recv_header_lem d m b looks body rs pad f v one at short w good =
    let size = size_lem d m b looks body rs pad f v one at short in
    let total = to_len-size_of b v one in
    let whole : (ltb 0 b.start && leb htc_hdr_length (to_len b % 2 ^ 16)) ≡ true = ground arith in
    rw
      (
        whole,
        payload_len_lem d m b looks body rs pad f v one at short,
        f.look_ahead,
        ==_refl b.trans.lookahead,
      )
      (Returns-bind
        (λ c.
          Keeps b c
          × (c.start ≡ b.start)
          × (c.tail ≡ b.start + 6 + (length body + length (encode rs))))
        (Stripped d m b looks body rs pad f v one at short)
        (trim_padding b (length body + length (encode rs))) _
        (trim_pad d m b looks body rs pad f v one at short)
        λ c (k, s, t). strip_trailer_lem d m b looks body rs pad f v one at short c w good k s t)
