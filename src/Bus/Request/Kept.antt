-- ===== src/Bus/Request/Kept.antt =====
-- What a request's transfer leaves alone.
use atheros_wifi.Prelude.{
  ℕ, zero, suc, ◌+◌, ◌-◌, ◌%◌, ◌^◌, ◌≡◌, refl, ◌∙◌, inl, inr, Bool, true, false, Option, none, some,
  ltb, leb, ◌==◌, if◌then◌else◌, Bool-cases, Outcome, ran, assert, IfReturns, IfReturns-bind,
}
use atheros_wifi.Netbuf.Buffer.{Netbuf, Frag, get_fragment}
use atheros_wifi.Bus.{a_ok, Custom, Bus, on_ok, out_token}
use atheros_wifi.Bus.Shadow.{IsRegister}
use atheros_wifi.Bus.Transfer.{
  is_read, is_sync, one_buffer, round, buffers, padding, started, transfer_data, completed,
}
use atheros_wifi.Bus.Request.{dma_address}

-- The command of the request's transfer, and its data, leave the target's mask alone.
pub record KeepsMask {D : Type 0} (hw : Custom D) (enabled : D → ℕ) (req : Netbuf) : Type 0 where
  pub token : (d : D) → enabled (out_token hw d (dma_address req)).1 ≡ enabled d
  pub buffer :
      (d : D) (f : Frag) (rd sync : Bool) → enabled (hw.inout_buffer d f rd sync).1 ≡ enabled d
  pub start : (d : D) (sync : Bool) → enabled (hw.start_transfer d sync).1 ≡ enabled d
  pub end_ : (d : D) (sync : Bool) → enabled (hw.complete_transfer d sync).1 ≡ enabled d

pub if-IfReturns :
    {A : Type 0} (P : A → Type 0) (t : Bool) (o u : Outcome A)
    → IfReturns P o
    → IfReturns P u
    → IfReturns P (if t then o else u)
if-IfReturns P true o u x y = x
if-IfReturns P false o u x y = y

pub on_ok-IfReturns :
    {S A : Type 0} (P : S → Type 0) (Q : A → Type 0) (r : ℕ × S) (stop : ℕ × S → Outcome A)
    (go : S → Outcome A)
    → P r.1
    → ((s : ℕ) (x : S) → P x → IfReturns Q (stop (s, x)))
    → ((x : S) → P x → IfReturns Q (go x))
    → IfReturns Q (on_ok r stop go)
on_ok-IfReturns P Q (s, x) stop go h f g = if-IfReturns Q (s == a_ok) _ _ (g x h) (f s x h)

module _ {D : Type 0} (hw : Custom D) (enabled : D → ℕ) (r : IsRegister hw 13 enabled)
    (req : Netbuf) (k : KeepsMask hw enabled req) (n : ℕ) where
  abbrev pub Same : D → Type 0
  Same d = enabled d ≡ n

  one_buffer-Same : (d : D) (f : Frag) → Same d → Same (one_buffer hw d req f).1
  one_buffer-Same d f h = elim (Bool-cases (f.length == 0)) [
    | inl y ↦ rw y h
    | inr y ↦ rw y (k.buffer d f (is_read req) (is_sync req) ∙ h)
  ]

  round-Same :
      (next : D → ℕ → Outcome (ℕ × ℕ × D)) (d : D) (total : ℕ) (o : Option Frag)
      → ((d' : D) (t : ℕ) → Same d' → IfReturns (λ (_, _, e). Same e) (next d' t))
      → Same d
      → IfReturns (λ (_, _, e). Same e) (round hw next d req total o)
  round-Same next d total none rest h = h
  round-Same next d total (some f) rest h =
      let (status, d') = one_buffer hw d req f in
      if-IfReturns (λ (_, _, e). Same e) (status == a_ok) (next d' ((total + f.length) % 2 ^ 16))
        (ran (status, total, d')) (rest d' _ (one_buffer-Same d f h)) (one_buffer-Same d f h)

  buffers-Same :
      (fuel : ℕ) (d : D) (i total : ℕ)
      → Same d
      → IfReturns (λ (_, _, e). Same e) (buffers hw fuel d req i total)
  unfolding buffers
  buffers-Same zero d i total h = tt
  buffers-Same (suc fuel) d i total h =
      round-Same (λ d' t. buffers hw fuel d' req (i + 1) t) d total (get_fragment req (i % 2 ^ 8))
        (λ d' t. buffers-Same fuel d' (i + 1) t) h

  padding-Same :
      (b : Bus D) (s t : ℕ) (d : D)
      → Same d
      → IfReturns (λ (_, e). Same e) (padding hw b req (s, t, d))
  padding-Same b s t d h =
      let rest = req.trans.transfer_length - t in
      if-IfReturns (λ (_, e). Same e) (ltb t req.trans.transfer_length) _ (ran (s, d))
        (IfReturns-bind (λ _. Unit) (λ (_, e). Same e) (assert (leb rest b.block_size)) _
          (passed (leb rest b.block_size)) λ _ _. k.buffer d _ (is_read req) (is_sync req) ∙ h)
        h
    where
      passed : (t : Bool) → IfReturns (λ _. Unit) (assert t)
      passed true = tt
      passed false = tt

  completed-Same : (s : ℕ) (d : D) → Same d → Same (completed hw req (s, d)).1
  completed-Same s d h = elim (Bool-cases (s == a_ok)) [
    | inl y ↦ rw y (k.end_ d (is_sync req) ∙ h)
    | inr y ↦ rw y h
  ]

  pub transfer_data-Same :
      (b : Bus D)
      → Same b.device
      → IfReturns
          (λ (_, b'). (d : D) × Same d × (b' ≡ record b { device = d }))
          (transfer_data hw b req)
  unfolding transfer_data
  transfer_data-Same b h =
      let Q : ℕ × D → Type 0 = λ (_, e). Same e in
      IfReturns-bind Q _
        (on_ok (hw.start_transfer b.device (is_sync req)) (λ x. ran x) (started hw b req)) _
        (on_ok-IfReturns Same Q (hw.start_transfer b.device (is_sync req)) (λ x. ran x)
          (started hw b req) (k.start b.device (is_sync req) ∙ h) (λ s x same. same)
          λ d same.
            IfReturns-bind (λ (_, _, e). Same e) Q (buffers hw (req.num_frags + 2) d req 0 0) _
              (buffers-Same (req.num_frags + 2) d 0 0 same)
              λ (s, t, d') same'.
                IfReturns-bind Q Q (padding hw b req (s, t, d')) _ (padding-Same b s t d' same')
                  λ (s', d'') same''. completed-Same s' d'' same'')
        λ (s, d) same. (d, same, refl)
