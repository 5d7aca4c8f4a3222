-- ===== src/Wmi/Headers.antt =====
-- The header of a data frame, and the priority in it.
use atheros_wifi.Prelude.{
  ℕ, ◌+◌, ◌-◌, ◌*◌, ◌/◌, ◌%◌, ◌^◌, ◌≤◌, ◌<◌, ◌≡◌, refl, ap, ◌∙◌, Bool, true, false, ◌&&◌, List, [],
  ◌∷◌, ◌++◌, arith, ◌==◌, if◌then◌else◌, length, get_or, passes, passes_at, ran, Returns,
  Returns-bind, Mem, load, store, load-add, load-store_self, load-store_above, load-store_below,
}
use mathlib.Core.Path.{ap₂}
use atheros_wifi.Netbuf.Buffer.{Netbuf, push}
use atheros_wifi.Netbuf.Buffer.Room.{IsBuffer, Keeps, push_lem}
use atheros_wifi.Wmi.Encap.{load_parts, load-store_front}
use atheros_wifi.Wmi.{
  be16, meta_add, data_hdr, data_hdr_add, set_up, get_meta, up_to_ac, determine_user_priority,
  implicit_create_pstream,
}

-- The bytes behind a store, and those before it.
pub store_past : (m : Mem) (a p : ℕ) (bs : List ℕ) → a + length bs ≤ p → store m a bs p ≡ m p
store_past m a p bs h = ap (λ l. get_or l 0 0) (load-store_above m p 1 a bs h)

pub store_before : (m : Mem) (a p : ℕ) (bs : List ℕ) → p + 1 ≤ a → store m a bs p ≡ m p
store_before m a p bs h = ap (λ l. get_or l 0 0) (load-store_below m p 1 a bs h)

-- The header of a data frame with meta data of version 5.
abbrev pub data_hdr_5 : (priority : ℕ) → List ℕ
data_hdr_5 priority = 0 ∷ priority * 2 ^ 2 ∷ 0 ∷ 0xA0 ∷ 0 ∷ 0 ∷ []

-- The header and the meta data stand in front of the frame, which stays as it was.
abbrev pub IsHeaded : Mem → Netbuf → Mem × Netbuf → Type 0
IsHeaded m b (m', c) =
    Keeps b c
    × (c.start + 18 ≡ b.start)
    × (c.tail ≡ b.tail)
    × (load m' c.start 6 ≡ data_hdr_5 0)
    × ((p : ℕ) → b.start ≤ p → m' p ≡ m p)

meta_add_lem :
    (m : Mem) (b : Netbuf) (p_tx_meta : ℕ)
    → IsBuffer b
    → 12 ≤ b.start - b.head
    → Returns
        (λ (m', c).
          Keeps b c
          × (c.start + 12 ≡ b.start)
          × (c.tail ≡ b.tail)
          × ((p : ℕ) → b.start ≤ p → m' p ≡ m p))
        (meta_add m b 5 p_tx_meta)
unfolding meta_add
meta_add_lem m b p_tx_meta v room =
    Returns-bind _ _ (push b 12) _ (push_lem b 12 v room)
      λ c (k, s, t). (k, s, t, λ p h. store_past m c.start p (load m p_tx_meta 1) (omega arith))

-- `wmi_data_hdr_add` of a data frame as `Api_DataTxStart` calls it.
pub data_hdr_add_lem :
    (m : Mem) (b : Netbuf) (p_tx_meta : ℕ)
    → IsBuffer b
    → 18 ≤ b.start - b.head
    → Returns (IsHeaded m b) (data_hdr_add m b 0 false 0 5 p_tx_meta)
unfolding data_hdr_add data_hdr
data_hdr_add_lem m b p_tx_meta v room =
    Returns-bind _ (IsHeaded m b) (meta_add m b 5 p_tx_meta) _
      (meta_add_lem m b p_tx_meta v (omega arith))
      λ (m1, b1) ((w, h, e, g, x), s1, t1, f1).
        let go : Netbuf → Mem × Netbuf = λ c. (store m1 c.start (data_hdr_5 0), c) in
        Returns-bind _ (IsHeaded m b) (push b1 6) (λ c. ran (go c)) (push_lem b1 6 w (omega arith))
          λ c ((w', h', e', g', x'), s, t). (
            (w', h' ∙ h, e' ∙ e, g' ∙ g, x' ∙ x),
            omega arith,
            t ∙ t1,
            load-store_self m1 c.start (data_hdr_5 0),
            λ p le. store_past m1 c.start p (data_hdr_5 0) (omega arith) ∙ f1 p le,
          )

-- The priority of an Ethernet frame at `a` with a SNAP header: the precedence that an IP packet
-- asks for, if the network has WMM.
abbrev pub priority_at : Mem → ℕ → Bool → ℕ
priority_at m a wmm = if wmm && (be16 m (a + 20) == 0x800) then m (a + 23) / 2 ^ 5 % 2 ^ 3 else 0

set_up-zero : (p : ℕ) → p < 8 → set_up 0 p ≡ p * 2 ^ 2
unfolding passes set_up
set_up-zero p h = let all = passes_at (λ q. set_up 0 q == q * 2 ^ 2) 8 p h refl in ground arith

determine_user_priority-zero :
    (m : Mem) (pkt : ℕ) → determine_user_priority m pkt 0 ≡ m (pkt + 1) / 2 ^ 5 % 2 ^ 3
unfolding determine_user_priority
determine_user_priority-zero m pkt = ground arith

priority_lt : (m : Mem) (a : ℕ) (wmm : Bool) → priority_at m a wmm < 8
priority_lt m a wmm = ground arith

-- The choice of `wmi_implicit_create_pstream`, for the address of the LLC header.
abbrev chosen : Mem → ℕ → Bool → ℕ
chosen m llc wmm =
    if wmm
    then (if be16 m (llc + 6) == 0x800 then determine_user_priority m (llc + 8) 0 else 0)
    else 0

chosen_lem :
    (m : Mem) (llc a : ℕ) (wmm : Bool) → llc ≡ a + 14 → chosen m llc wmm ≡ priority_at m a wmm
chosen_lem m llc a false e = refl
chosen_lem m llc a true e =
    let same : be16 m (llc + 6) ≡ be16 m (a + 20) =
      ap₂ (λ x y. x * 2 ^ 8 + y) (ap m (omega arith)) (ap m (omega arith)) in
    ap₂ (λ w p. if w == 0x800 then p else 0) same
      (determine_user_priority-zero m (llc + 8) ∙ ap (λ x. m x / 2 ^ 5 % 2 ^ 3) (omega arith))

-- `wmi_implicit_create_pstream` of such a frame: the priority goes into the header.
pub implicit_create_pstream_lem :
    (m : Mem) (c : Netbuf) (a : ℕ) (wmm : Bool)
    → load m c.start 6 ≡ data_hdr_5 0
    → c.start + 18 ≡ a
    → implicit_create_pstream m c 0 wmm ≡ (
      get_or up_to_ac (priority_at m a wmm) 0,
      store m (c.start + 1) (priority_at m a wmm * 2 ^ 2 ∷ []),
    )
unfolding implicit_create_pstream
implicit_create_pstream_lem m c a wmm hdr e =
    let p = priority_at m a wmm in
    let p_lt = priority_lt m a wmm in
    let same : chosen m (c.start + 6 + 12 + 14) wmm ≡ p =
      chosen_lem m (c.start + 6 + 12 + 14) a wmm (omega arith) in
    let small : p % 2 ^ 3 ≡ p = omega arith in
    let info : m (c.start + 1) ≡ 0 = ap (λ l. get_or l 1 0) hdr in
    let low : m (c.start + 2) ≡ 0 = ap m (omega arith) ∙ ap (λ l. get_or l 2 0) hdr in
    let high : m (c.start + 3) ≡ 0xA0 = ap m (omega arith) ∙ ap (λ l. get_or l 3 0) hdr in
    let meta : (if get_meta m c.start == 0 then 0 else 12) ≡ 12 = ground arith in
    let go : ℕ → ℕ → ℕ × Mem =
      λ i q. (get_or up_to_ac (q % 2 ^ 3) 0, store m (c.start + 1) (set_up i q ∷ [])) in
    let step : implicit_create_pstream m c 0 wmm
        ≡ go (m (c.start + 1)) (chosen m (c.start + 6 + 12 + 14) wmm) =
      ap (λ (k : ℕ). go (m (c.start + 1)) (chosen m (c.start + 6 + k + 14) wmm)) meta in
    step
    ∙ ap₂ (λ i q. go i q) info same
    ∙ ap₂ (λ x y. (get_or up_to_ac x 0, store m (c.start + 1) (y ∷ []))) small (set_up-zero p p_lt)

-- A store into the second byte.
pub load-store_second :
    (m : Mem) (a x y0 y1 : ℕ) (ys : List ℕ)
    → load m a 6 ≡ y0 ∷ y1 ∷ ys
    → load (store m (a + 1) (x ∷ [])) a 6 ≡ y0 ∷ x ∷ ys
load-store_second m a x y0 y1 ys e =
    let (_, last) = load_parts m a 4 (y0 ∷ y1 ∷ []) ys e in
    let at : a + 1 + 1 ≡ a + 2 = omega arith in
    load-add (store m (a + 1) (x ∷ [])) a 1 5
    ∙ ap₂ (λ us vs. us ++ vs)
        (load-store_below m a 1 (a + 1) (x ∷ []) (omega arith) ∙ ap (λ l. get_or l 0 0 ∷ []) e)
        (load-store_front m (a + 1) 4 (x ∷ []) ∙ ap (λ vs. x ∷ vs) (ap (λ i. load m i 4) at ∙ last))
