-- ===== src/Htc/Trailer.antt =====
-- What a trailer does, by the records that it holds.
use atheros_wifi.Prelude.{
  ℕ, zero, suc, ◌+◌, ◌-◌, ◌/◌, ◌^◌, ◌≤◌, ◌<◌, ◌≡◌, refl, ap, ◌∙◌, ◌≢◌, inl, inr, true, false, ◌&&◌,
  Option, List, [], ◌∷◌, ◌++◌, arith, ltb, leb, ◌==◌, if◌then◌else◌, le→ltb, ==_ne, Bool-cases,
  length, get_or, take, drop, length-append, length-take, take-append, drop-append, take-drop,
  Returns, Returns-mono, Returns-bind, Returns-first,
}
use atheros_wifi.Htc.{Driver, process_credit_rpt}
use atheros_wifi.Htc.Account.{Accounted, AreBytes, NamesEndpoints, process_credit_rpt-Accounted}
use atheros_wifi.Htc.Frame.{
  Looks, word, one_look, lookahead_report_length, process_record, process_trailer,
}

-- The identifier and the body of a record.
abbrev pub Record : Type 0
Record = ℕ × List ℕ

-- The bytes of a sequence of records.
unfoldable pub encode : List Record → List ℕ
encode [] = []
encode ((id, body) ∷ rs) = id ∷ length body ∷ (body ++ encode rs)

-- A record that the target may send: its length fits a byte, a credit report names endpoints, a
-- look-ahead is whole, and it is no bundle.
abbrev pub IsRecord : Record → Type 0
IsRecord (id, body) =
    AreBytes body
    × (id ≡ 1 → NamesEndpoints (length body / 2) body)
    × (id ≡ 2 → lookahead_report_length ≤ length body)
    × (id ≢ 3)

abbrev pub AreRecords : List Record → Type 0
AreRecords [] = Unit
AreRecords (r ∷ rs) = IsRecord r × AreRecords rs

-- The look-ahead that a record leaves.
abbrev pub look_of : Record → Option Looks → Option Looks
look_of (id, body) looks =
    if id == 2 && (get_or body 0 0 + get_or body 5 0 == 255)
    then one_look looks
        (word (get_or body 1 0) (get_or body 2 0) (get_or body 3 0) (get_or body 4 0))
    else looks

-- That of the last valid one.
abbrev pub last_look : List Record → Option Looks → Option Looks
last_look [] looks = looks
last_look (r ∷ rs) looks = last_look rs (look_of r looks)

process_record_lem :
    (d₀ d : Driver) (looks : Option Looks) (id : ℕ) (body : List ℕ)
    → IsRecord (id, body)
    → Accounted d₀ d
    → Returns
        (λ (d', looks'). Accounted d₀ d' × (looks' ≡ look_of (id, body) looks))
        (process_record id body (d, looks))
unfolding process_record
process_record_lem d₀ d looks id body (b, one, two, three) a = elim (Bool-cases (id == 1)) [
  | inl y ↦
      let is : id ≡ 1 = ground arith in
      let no : (id == 2) ≡ false = ground arith in
      rw (y, no)
        (Returns-bind (λ d'. Accounted d₀ d') _ (process_credit_rpt (length body / 2) body d) _
          (process_credit_rpt-Accounted (length body / 2) body d₀ d b (one is) a)
          λ d' a'. (a', refl))
  | inr n ↦ (elim (Bool-cases (id == 2)) [
    | inl y ↦
        let is : id ≡ 2 = ground arith in
        let post : get_or body 5 0 < 2 ^ 8 = b 5 in
        let same : (get_or body 0 0 == 255 - get_or body 5 0)
            ≡ (get_or body 0 0 + get_or body 5 0 == 255) =
          ground arith in
        let whole : lookahead_report_length ≤ length body = two is in
        let fits : leb lookahead_report_length (length body) ≡ true = ground arith in
        rw (n, y, fits, same) (a, refl)
    | inr m ↦ let no : (id == 3) ≡ false = ==_ne id 3 three in rw (n, m, no) (a, refl)
  ])
]

-- A trailer made of whole records that the target may send (credit reports that name endpoints,
-- whole look-ahead reports, no bundle) is processed to its end, with the trailer's length as fuel
-- enough: each endpoint's account is kept, and the look-ahead is that of the last valid report, or
-- the old one where there is none.
pub process_trailer_lem :
    (fuel : ℕ) (rs : List Record) (d₀ d : Driver) (looks : Option Looks)
    → length (encode rs) ≤ fuel
    → AreRecords rs
    → Accounted d₀ d
    → Returns
        (λ (d', looks'). Accounted d₀ d' × (looks' ≡ last_look rs looks))
        (process_trailer fuel (encode rs) (d, looks))
unfolding process_trailer encode
process_trailer_lem zero [] d₀ d looks h v a = (a, refl)
process_trailer_lem (suc fuel) [] d₀ d looks h v a = (a, refl)
process_trailer_lem zero ((id, body) ∷ rs) d₀ d looks h v a = absurd (omega arith)
process_trailer_lem (suc fuel) ((id, body) ∷ rs) d₀ d looks h (r, v) a =
    rw
      (
        le→ltb (length (body ++ encode rs)) (length body)
            (omega (arith, length-append body (encode rs))),
        take-append body (encode rs),
        drop-append body (encode rs),
      )
      (Returns-bind (λ (d', looks'). Accounted d₀ d' × (looks' ≡ look_of (id, body) looks)) _
        (process_record id body (d, looks)) _ (process_record_lem d₀ d looks id body r a)
        λ (d', looks') (a', q).
          Returns-mono _ (process_trailer fuel (encode rs) (d', looks'))
            (process_trailer_lem fuel rs d₀ d' looks'
              (omega (arith, length-append body (encode rs))) v a')
            λ (d'', looks'') (a'', q'). (a'', q' ∙ ap (λ l. last_look rs l) q))

-- A record that a buffer begins with, where its length fits.
split :
    (id size : ℕ) (rest : List ℕ)
    → size ≤ length rest
    → (rs : List Record) → encode rs ≡ drop size rest
    → encode ((id, take size rest) ∷ rs) ≡ id ∷ size ∷ rest
unfolding encode
split id size rest h rs e =
    rw (length-take size rest, e, take-drop size rest) (ap (λ n. id ∷ n ∷ rest) (omega arith))

-- A buffer that is processed to its end is a sequence of whole records: every other buffer halts
-- the driver.
pub process_trailer-encode :
    (fuel : ℕ) (buffer : List ℕ) (s : Driver × Option Looks)
    → Returns (λ _. Unit) (process_trailer fuel buffer s)
    → (rs : List Record) × (encode rs ≡ buffer)
unfolding process_trailer encode
process_trailer-encode fuel [] s h = ([], refl)
process_trailer-encode fuel (b ∷ []) s h = absurd h
process_trailer-encode zero (id ∷ size ∷ rest) s h = absurd h
process_trailer-encode (suc fuel) (id ∷ size ∷ rest) s h =
    elim (Bool-cases (ltb (length rest) size)) [
      | inl y ↦ absurd (rw y at h)
      | inr n ↦
          let (s', h') =
            Returns-first (process_record id (take size rest) s)
              (λ s'. process_trailer fuel (drop size rest) s') (rw n at h) in
          let (rs, e) = process_trailer-encode fuel (drop size rest) s' h' in
          ((id, take size rest) ∷ rs, split id size rest (ground arith) rs e)
    ]
