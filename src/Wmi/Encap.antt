-- ===== src/Wmi/Encap.antt =====
-- Ethernet frames on their way to 802.3 and back.
use atheros_wifi.Prelude.{
  ℕ, ◌+◌, ◌-◌, ◌*◌, ◌^◌, ◌≤◌, ◌≡◌, refl, sym, ap, ◌∙◌, List, [], ◌∷◌, ◌++◌, arith, ltb, le→ltb,
  length, take, drop, get_or, false, length-append, take-append, drop-append, Outcome, ran, ◌>>=◌,
  Returns, Returns-bind, Returns-mono, sub32, Mem, load, store, length-load, load-add, load-ext,
  take-load, drop-load, load-store_self, load-store_below, load-store_above,
}
use mathlib.Core.Path.{ap₂, subst}
use mathlib.Core.List.{append_assoc}
use atheros_wifi.Netbuf.Buffer.{Netbuf, push, pull, to_len, headroom}
use atheros_wifi.Netbuf.Buffer.Room.{IsBuffer, size_of, Keeps, push_lem, pull_lem}
use atheros_wifi.Netbuf.Buffer.Bytes.{content}
use atheros_wifi.Netbuf.Buffer.Fragments.{to_len-single}
use atheros_wifi.Wmi.{llc_hdr_size, be16, be16_bytes, snap, framed, dix_2_dot3, dot3_2_dix}

-- Two parts of what is in memory.
pub load_parts :
    (m : Mem) (a k : ℕ) (xs ys : List ℕ)
    → load m a (length xs + k) ≡ xs ++ ys
    → (load m a (length xs) ≡ xs) × (load m (a + length xs) k ≡ ys)
load_parts m a k xs ys e = (
  sym (take-load m a (length xs) k) ∙ ap (λ l. take (length xs) l) e ∙ take-append xs ys,
  sym (drop-load m a (length xs) k) ∙ ap (λ l. drop (length xs) l) e ∙ drop-append xs ys,
)

-- What a store at the front leaves of the rest.
pub load-store_front :
    (m : Mem) (a k : ℕ) (xs : List ℕ)
    → load (store m a xs) a (length xs + k) ≡ xs ++ load m (a + length xs) k
load-store_front m a k xs =
    load-add (store m a xs) a (length xs) k
    ∙ ap₂ (λ us vs. us ++ vs) (load-store_self m a xs)
        (load-store_above m (a + length xs) k a xs (omega arith))

load-store_two :
    (m : Mem) (a k : ℕ) (xs ys : List ℕ)
    → load (store (store m a xs) (a + length xs) ys) a (length xs + (length ys + k))
      ≡ xs ++ (ys ++ load m (a + length xs + length ys) k)
load-store_two m a k xs ys =
    load-add (store (store m a xs) (a + length xs) ys) a (length xs) (length ys + k)
    ∙ ap₂ (λ us vs. us ++ vs)
        (load-store_below (store m a xs) a (length xs) (a + length xs) ys (omega arith)
          ∙ load-store_self m a xs)
        (load-store_front (store m a xs) (a + length xs) k ys
          ∙ ap (λ vs. ys ++ vs)
              (load-store_above m (a + length xs + length ys) k a xs (omega arith)))

-- A frame with the two addresses, a type (or a length) of two bytes, and a body.
abbrev pub IsFrame : Mem → Netbuf → (mac : List ℕ) (t1 t2 : ℕ) (body : List ℕ) → Type 0
IsFrame m b mac t1 t2 body = (length mac ≡ 12) × (content m b ≡ mac ++ (t1 ∷ t2 ∷ body))

frame_parts :
    (m : Mem) (b : Netbuf) (mac : List ℕ) (t1 t2 : ℕ) (body : List ℕ)
    → IsFrame m b mac t1 t2 body
    → (size_of b ≡ 14 + length body)
      × (load m b.start 12 ≡ mac)
      × (load m (b.start + 12) 2 ≡ t1 ∷ t2 ∷ [])
      × (load m (b.start + 14) (length body) ≡ body)
frame_parts m b mac t1 t2 body (twelve, e) =
    let len = length-load m b.start (size_of b) in
    let whole = length-append mac (t1 ∷ t2 ∷ body) in
    let total : size_of b ≡ length mac + (2 + length body) =
      sym len ∙ ap (λ l. length l) e ∙ whole ∙ omega arith in
    let (front, rest) =
      load_parts m b.start (2 + length body) mac (t1 ∷ t2 ∷ body)
        (sym (ap (λ n. load m b.start n) total) ∙ e) in
    let (two, last) = load_parts m (b.start + length mac) (length body) (t1 ∷ t2 ∷ []) body rest in
    let at : b.start + length mac ≡ b.start + 12 = omega arith in
    let past : b.start + length mac + 2 ≡ b.start + 14 = omega arith in
    (
      total ∙ omega arith,
      sym (ap (λ n. load m b.start n) twelve) ∙ front,
      sym (ap (λ a. load m a 2) at) ∙ two,
      sym (ap (λ a. load m a (length body)) past) ∙ last,
    )

abbrev pub dot3_frame : (mac : List ℕ) (t1 t2 : ℕ) (body : List ℕ) → List ℕ
dot3_frame mac t1 t2 body =
    (mac ++ be16_bytes (length body + llc_hdr_size)) ++ ((snap ++ (t1 ∷ t2 ∷ [])) ++ body)

content-framed :
    (m : Mem) (b c : Netbuf) (mac : List ℕ) (t1 t2 : ℕ) (body : List ℕ) (len : ℕ)
    → IsFrame m b mac t1 t2 body
    → IsBuffer b
    → c.start + 8 ≡ b.start
    → c.tail ≡ b.tail
    → content (framed m c mac (t1 ∷ t2 ∷ []) len) c
      ≡ (mac ++ be16_bytes len) ++ ((snap ++ (t1 ∷ t2 ∷ [])) ++ body)
content-framed m b c mac t1 t2 body len f v s t =
    let (size, _, _, last) = frame_parts m b mac t1 t2 body f in
    let h = mac ++ be16_bytes len in
    let fourteen : length h ≡ 14 = length-append mac (be16_bytes len) ∙ ap (λ n. n + 2) f.0 in
    let m' = framed m c mac (t1 ∷ t2 ∷ []) len in
    let total : size_of c ≡ length h + (8 + length body) = omega arith in
    let place : m' ≡ store (store m c.start h) (c.start + length h) (snap ++ (t1 ∷ t2 ∷ [])) =
      ap (λ n. store (store m c.start h) (c.start + n) (snap ++ (t1 ∷ t2 ∷ []))) (sym fourteen) in
    let past : c.start + length h + 8 ≡ b.start + 14 = omega arith in
    ap₂ (λ k n. load k c.start n) place total
    ∙ load-store_two m c.start (length body) h (snap ++ (t1 ∷ t2 ∷ []))
    ∙ ap (λ vs. h ++ ((snap ++ (t1 ∷ t2 ∷ [])) ++ vs))
        (ap (λ a. load m a (length body)) past ∙ last)

-- `wmi_dix_2_dot3`
pub dix_2_dot3_lem :
    (m : Mem) (b : Netbuf) (mac : List ℕ) (t1 t2 : ℕ) (body : List ℕ)
    → IsBuffer b
    → b.num_frags ≡ 0
    → IsFrame m b mac t1 t2 body
    → 0x600 ≤ t1 * 2 ^ 8 + t2
    → 14 ≤ b.start - b.head
    → Returns
        (λ (s, m', c).
          (s ≡ 0)
          × Keeps b c
          × (c.start + 8 ≡ b.start)
          × (c.tail ≡ b.tail)
          × (content m' c ≡ dot3_frame mac t1 t2 body))
        (dix_2_dot3 m b)
unfolding dix_2_dot3 headroom
dix_2_dot3_lem m b mac t1 t2 body v one f ether room =
    let (size, front, two, last) = frame_parts m b mac t1 t2 body f in
    let first : m (b.start + 12) ≡ t1 = ap (λ l. get_or l 0 0) two in
    let second : m (b.start + 12 + 1) ≡ t2 = ap (λ l. get_or l 1 0) two in
    let enough : ltb (sub32 b.start b.head) 14 ≡ false =
      le→ltb (sub32 b.start b.head) 14 (omega arith) in
    let is_ether : ltb (be16 m (b.start + 12)) 0x600 ≡ false =
      le→ltb (be16 m (b.start + 12)) 0x600 (omega arith) in
    let len : sub32 (to_len b) 14 + 8 ≡ length body + 8 =
      ap (λ n. sub32 n 14 + 8) (to_len-single b v one ∙ size) ∙ omega (arith, v) in
    let Q : ℕ × Mem × Netbuf → Type 0 = λ (s, m', c).
      (s ≡ 0)
      × Keeps b c
      × (c.start + 8 ≡ b.start)
      × (c.tail ≡ b.tail)
      × (content m' c ≡ dot3_frame mac t1 t2 body) in
    let go : List ℕ → List ℕ → ℕ → Outcome (ℕ × Mem × Netbuf) =
      λ x y n. push b 8 >>= λ c. ran (0, framed m c x y n, c) in
    let same : go (load m b.start 12) (load m (b.start + 12) 2) (sub32 (to_len b) 14 + 8)
        ≡ go mac (t1 ∷ t2 ∷ []) (length body + 8) =
      ap₂ (λ x y. go x y (sub32 (to_len b) 14 + 8)) front two ∙ ap (go mac (t1 ∷ t2 ∷ [])) len in
    rw (enough, is_ether)
      (subst (Returns Q) (sym same) (
        Returns-bind _ Q (push b 8) _ (push_lem b 8 v (omega arith)) λ c (k, s, t).
          (refl, k, s, t, content-framed m b c mac t1 t2 body (length body + 8) f v s t)))

-- `wmi_dot3_2_dix` of a frame that begins as `wmi_dix_2_dot3` makes it.
pub dot3_2_dix_lem :
    (m : Mem) (b : Netbuf) (mac : List ℕ) (len t1 t2 : ℕ) (body : List ℕ)
    → IsBuffer b
    → length mac ≡ 12
    → content m b ≡ (mac ++ be16_bytes len) ++ ((snap ++ (t1 ∷ t2 ∷ [])) ++ body)
    → Returns
        (λ (m', c).
          Keeps b c
          × (c.start ≡ b.start + 8)
          × (c.tail ≡ b.tail)
          × (content m' c ≡ mac ++ (t1 ∷ t2 ∷ body)))
        (dot3_2_dix m b)
unfolding dot3_2_dix
dot3_2_dix_lem m b mac len t1 t2 body v twelve e =
    let h = mac ++ be16_bytes len in
    let rest = (snap ++ (t1 ∷ t2 ∷ [])) ++ body in
    let fourteen : length h ≡ 14 = length-append mac (be16_bytes len) ∙ ap (λ n. n + 2) twelve in
    let total : size_of b ≡ length h + (8 + length body) =
      sym (length-load m b.start (size_of b))
      ∙ ap (λ l. length l) e
      ∙ length-append h rest
      ∙ omega arith in
    let (front, back) =
      load_parts m b.start (8 + length body) h rest (sym (ap (λ n. load m b.start n) total) ∙ e) in
    let macs =
      load_parts m b.start 2 mac (be16_bytes len)
        (ap (λ n. load m b.start n) (omega arith) ∙ front) in
    let (llc, last) =
      load_parts m (b.start + length h) (length body) (snap ++ (t1 ∷ t2 ∷ [])) body back in
    let (_, two) = load_parts m (b.start + length h) 2 snap (t1 ∷ t2 ∷ []) llc in
    let mac_at : load m b.start 12 ≡ mac = sym (ap (λ n. load m b.start n) twelve) ∙ macs.0 in
    let at : b.start + length h + 6 ≡ b.start + 14 + 6 = omega arith in
    let two_at : load m (b.start + 14 + 6) 2 ≡ t1 ∷ t2 ∷ [] = sym (ap (λ a. load m a 2) at) ∙ two in
    let Q : Mem × Netbuf → Type 0 = λ (m', c).
      Keeps b c
      × (c.start ≡ b.start + 8)
      × (c.tail ≡ b.tail)
      × (content m' c ≡ mac ++ (t1 ∷ t2 ∷ body)) in
    let enough : 8 ≤ size_of b = omega arith in
    let go : List ℕ → List ℕ → Outcome (Mem × Netbuf) =
      λ x y. pull b 8 >>= λ c. ran (store m c.start (x ++ y), c) in
    let same : go (load m b.start 12) (load m (b.start + 14 + 6) 2) ≡ go mac (t1 ∷ t2 ∷ []) =
      ap₂ (λ x y. go x y) mac_at two_at in
    subst (Returns Q) (sym same) (
      Returns-bind _ Q (pull b 8) _ (pull_lem b 8 v enough) λ c (k, s, t).
        let all = mac ++ (t1 ∷ t2 ∷ []) in
        let n : length all ≡ 14 = length-append mac (t1 ∷ t2 ∷ []) ∙ ap (λ i. i + 2) twelve in
        let left : size_of c ≡ length all + length body = omega arith in
        let past : c.start + length all ≡ b.start + length h + 8 = omega arith in
        (
          k,
          s,
          t,
          ap (λ i. load (store m c.start all) c.start i) left
              ∙ load-store_front m c.start (length body) all
              ∙ ap (λ vs. all ++ vs) (ap (λ a. load m a (length body)) past ∙ last)
              ∙ append_assoc mac (t1 ∷ t2 ∷ []) body,
        ))

loaded-IsFrame :
    (m : Mem) (b : Netbuf)
    → 14 ≤ size_of b
    → IsFrame m b
        (load m b.start 12)
        (m (b.start + 12))
        (m (b.start + 13))
        (load m (b.start + 14) (size_of b - 14))
loaded-IsFrame m b long =
    let n = size_of b - 14 in
    (
      length-load m b.start 12,
      ap (λ k. load m b.start k) (omega arith)
          ∙ load-add m b.start 12 (2 + n)
          ∙ ap (λ vs. load m b.start 12 ++ vs)
              (load-add m (b.start + 12) 2 n
                ∙ ap₂ (λ x a. m (b.start + 12) ∷ x ∷ load m a n) (ap m (omega arith))
                    (omega arith)),
    )

-- An Ethernet frame of at least 14 bytes, with a type of at least 0x600, in one valid buffer with
-- 14 bytes of head room: `wmi_dix_2_dot3` and then `wmi_dot3_2_dix` return, and leave the pointers
-- and the bytes of the frame as they were.
pub dot3_2_dix-dix_2_dot3 :
    (m : Mem) (b : Netbuf)
    → IsBuffer b
    → b.num_frags ≡ 0
    → 14 ≤ size_of b
    → 0x600 ≤ m (b.start + 12) * 2 ^ 8 + m (b.start + 13)
    → 14 ≤ b.start - b.head
    → Returns
        (λ (m', c).
          Keeps b c × (c.start ≡ b.start) × (c.tail ≡ b.tail) × (content m' c ≡ content m b))
        (dix_2_dot3 m b >>= λ (s, m', c). dot3_2_dix m' c)
dot3_2_dix-dix_2_dot3 m b v one long ether room =
    let mac = load m b.start 12 in
    let t1 = m (b.start + 12) in
    let t2 = m (b.start + 13) in
    let body = load m (b.start + 14) (size_of b - 14) in
    let f = loaded-IsFrame m b long in
    let Q : Mem × Netbuf → Type 0 = λ (m', c).
      Keeps b c × (c.start ≡ b.start) × (c.tail ≡ b.tail) × (content m' c ≡ content m b) in
    Returns-bind _ Q (dix_2_dot3 m b) _ (dix_2_dot3_lem m b mac t1 t2 body v one f ether room)
      λ (s, m', c) (ok, (w, h, e, g, x), at, t, whole).
        Returns-mono Q (dot3_2_dix m' c)
          (dot3_2_dix_lem m' c mac (length body + 8) t1 t2 body w f.0 whole)
          λ (m'', d) ((w', h', e', g', x'), at', t', all).
            ((w', h' ∙ h, e' ∙ e, g' ∙ g, x' ∙ x), omega arith, t' ∙ t, all ∙ sym f.1)

-- Memory that is the same from an address on.
pub load-ext_from : (m k : Mem) (a n : ℕ) → ((p : ℕ) → a ≤ p → m p ≡ k p) → load m a n ≡ load k a n
load-ext_from m k a n h = load-ext m k a n (λ p lo hi. h p lo)
