-- ===== src/Netbuf/Buffer/Fragments.antt =====
-- The length of a buffer that has more fragments than its built-in memory.
use atheros_wifi.Prelude.{
  ℕ, zero, suc, ◌+◌, ◌-◌, ◌%◌, ◌^◌, ◌≤◌, ◌<◌, ◌≡◌, refl, ap, ◌∙◌, ◌≢◌, inl, inr, Option, none, some,
  List, arith, le→ltb, Option-cases, length, get_or, set, get_or-set_self, halted, Returns, add32,
  sub32,
}
use atheros_wifi.Netbuf.Buffer.{
  Netbuf, Frag, no_frag, max_buf_frags, sum_frags, to_len, get_fragment, append_fragment,
}
use atheros_wifi.Netbuf.Buffer.Room.{IsBuffer, size_of}

abbrev pub frag_length : Option Frag → ℕ
frag_length none = 0
frag_length (some f) = f.length

-- The lengths of the `n` fragments from `i` on, as `a_netbuf_get_fragment` gives them.
abbrev pub total_from : Netbuf → ℕ → ℕ → ℕ
total_from b i zero = 0
total_from b i (suc n) = frag_length (get_fragment b i) + total_from b (i + 1) n

get_fragment-orig :
    (b : Netbuf) (orig : List Frag) (i : ℕ)
    → b.native_orig ≡ some orig
    → i < b.num_frags
    → get_fragment b (i + 1) ≡ some (get_or orig i no_frag)
unfolding get_fragment
get_fragment-orig b orig i e h =
    let back : i + 1 - 1 ≡ i = omega arith in ground (arith, ap (λ k. get_or orig k no_frag) back)

get_fragment-native :
    (b : Netbuf) (i : ℕ)
    → b.native_orig ≡ none
    → 0 < i
    → i ≤ b.num_frags
    → get_fragment b i ≡ some (get_or b.native i no_frag)
unfolding get_fragment
get_fragment-native b i e h k = ground arith

sum_frags-orig :
    (b : Netbuf) (orig : List Frag) (i n len : ℕ)
    → b.native_orig ≡ some orig
    → i + n ≤ b.num_frags
    → len < 2 ^ 32
    → sum_frags orig i n len ≡ (len + total_from b (i + 1) n) % 2 ^ 32
unfolding sum_frags
sum_frags-orig b orig i zero len e h k = omega arith
sum_frags-orig b orig i (suc n) len e h k =
    sum_frags-orig b orig (i + 1) n (add32 len (get_or orig i no_frag).length) e (omega arith)
      (omega arith)
    ∙ rw (get_fragment-orig b orig i e (omega arith)) (omega arith)

sum_frags-native :
    (b : Netbuf) (i n len : ℕ)
    → b.native_orig ≡ none
    → 0 < i
    → i + n ≤ b.num_frags + 1
    → len < 2 ^ 32
    → sum_frags b.native i n len ≡ (len + total_from b i n) % 2 ^ 32
unfolding sum_frags
sum_frags-native b i zero len e p h k = omega arith
sum_frags-native b i (suc n) len e p h k =
    sum_frags-native b (i + 1) n (add32 len (get_or b.native i no_frag).length) e (omega arith)
      (omega arith) (omega arith)
    ∙ rw (get_fragment-native b i e p (omega arith)) (omega arith)

to_len-orig :
    (b : Netbuf) (orig : List Frag)
    → b.native_orig ≡ some orig
    → to_len b ≡ sum_frags orig 0 b.num_frags (sub32 b.tail b.start)
unfolding to_len
to_len-orig b orig e = ground arith

to_len-native :
    (b : Netbuf)
    → b.native_orig ≡ none
    → to_len b ≡ sum_frags b.native 1 b.num_frags (sub32 b.tail b.start)
unfolding to_len
to_len-native b e = ground arith

get_fragment-zero : (b : Netbuf) → frag_length (get_fragment b 0) ≡ sub32 b.tail b.start
unfolding get_fragment
get_fragment-zero b = refl

-- `a_netbuf_to_len` is the sum, modulo 2 ^ 32, of the lengths that `a_netbuf_get_fragment` reports
-- for the indices 0 to `num_frags`, whichever table the fragments are in.
pub to_len-total : (b : Netbuf) → to_len b ≡ total_from b 0 (suc b.num_frags) % 2 ^ 32
to_len-total b = elim (Option-cases b.native_orig) [
  | inl e ↦
      to_len-native b e
      ∙ sum_frags-native b 1 b.num_frags (sub32 b.tail b.start) e (omega arith) (omega arith)
          (omega arith)
      ∙ rw (get_fragment-zero b)
  | inr (orig, e) ↦
      to_len-orig b orig e
      ∙ sum_frags-orig b orig 0 b.num_frags (sub32 b.tail b.start) e (omega arith) (omega arith)
      ∙ rw (get_fragment-zero b)
]

-- On a packet with no fragment, that is the length of the payload.
pub to_len-single : (b : Netbuf) → IsBuffer b → b.num_frags ≡ 0 → to_len b ≡ size_of b
to_len-single b v e =
    to_len-total b
    ∙ ap (λ n. total_from b 0 (suc n) % 2 ^ 32) e
    ∙ rw (get_fragment-zero b) (omega arith)

abbrev with_frag : Netbuf → Frag → Netbuf
with_frag b f = record b { num_frags = 1; native = set b.native 1 f }

get_fragment-with_frag :
    (b : Netbuf) (f : Frag)
    → length b.native ≡ max_buf_frags
    → b.native_orig ≡ none
    → get_fragment (with_frag b f) 1 ≡ some f
get_fragment-with_frag b f n o =
    get_fragment-native (with_frag b f) 1 o (omega arith) (omega arith)
    ∙ ap some (get_or-set_self b.native 1 f no_frag (omega arith))

to_len-with_frag :
    (b : Netbuf) (f : Frag)
    → IsBuffer b
    → length b.native ≡ max_buf_frags
    → b.native_orig ≡ none
    → to_len (with_frag b f) ≡ (size_of b + f.length) % 2 ^ 32
to_len-with_frag b f v n o =
    to_len-total (with_frag b f)
    ∙ rw (get_fragment-zero (with_frag b f), get_fragment-with_frag b f n o) (omega arith)

-- `a_netbuf_append_fragment` takes one fragment and no second: it adds the fragment's length to
-- that of a valid buffer without a caller's buffer and with both entries of its table, and halts
-- on one that has a fragment.
append_fragment_lem :
    (b : Netbuf) (f : Frag)
    → IsBuffer b
    → length b.native ≡ max_buf_frags
    → b.native_orig ≡ none
    → (b.num_frags ≡ 0
        → Returns
            (λ c. (to_len c ≡ (size_of b + f.length) % 2 ^ 32) × (get_fragment c 1 ≡ some f))
            (append_fragment b f))
      × (b.num_frags ≢ 0 → append_fragment b f ≡ halted)
unfolding append_fragment
append_fragment_lem b f v n o = (
  (λ e. rw e (to_len-with_frag b f v n o, get_fragment-with_frag b f n o)),
  (λ ne. rw (le→ltb b.num_frags 1 (omega arith))),
)
