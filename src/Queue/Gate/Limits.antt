-- ===== src/Queue/Gate/Limits.antt =====
-- The gate counts its permits, keeps to its limits, and lets no request wait that it could grant.
use content_automation.Base.{
  ℕ, suc, ◌≤◌, ◌<◌, String, ◌≡◌, ◌≢◌, ◌⊎◌, ap, refl, inl, inr, Bool, false, not, ◌&&◌, some, List,
  [], ◌∷◌, arith,
}
use content_automation.Base.Tests.{if◌then◌else◌, if_found, Bool-cases}
use content_automation.Base.Rows.{All, count_where}
use content_automation.Queue.Gate.{
  Config, Request, Permit, Active, Verdict, stop, reject, skip, grant, limit_of, verdict, hand_out,
  drain, mark_released, take_back,
}
use text.Mathlib.Text.{◌==◌ as str_eq}
use text.Mathlib.TextEquality.{eq_iff}

abbrev pub is_live : Permit → Bool
is_live p = not p.released

abbrev pub is_live_of : String → Permit → Bool
is_live_of provider p = not p.released && str_eq provider p.provider

-- The permits that a provider may have at a time; none without a limit.
abbrev pub allowance : Config → String → ℕ
allowance c p = if_found (limit_of c.provider_limits p) 0 λ limit. limit

-- The counters are the numbers of permits that are not released, and within the limits.
pub record Sound (c : Config) (a : Active) : Type 0 where
  pub global : a.global ≡ count_where is_live a.permits
  pub by_provider : (p : String) → a.by_provider p ≡ count_where (is_live_of p) a.permits
  pub global_bound : a.global ≤ c.global_limit
  pub bounds : (p : String) → a.by_provider p ≤ allowance c p

granted_room :
    (c : Config) (a : Active) (r : Request)
    → verdict c a r ≡ grant
    → (a.global < c.global_limit) × (a.by_provider r.provider < allowance c r.provider)
unfolding verdict
granted_room c a r v = ground arith

hand_out-counts :
    (r : Request) (a : Active) (p : String)
    → a.by_provider p ≡ count_where (is_live_of p) a.permits
    → (hand_out r a).by_provider p ≡ count_where (is_live_of p) (hand_out r a).permits
unfolding count_where
hand_out-counts r a p h = elim (Bool-cases (str_eq p r.provider)) [
  | inl t ↦ let same = ap a.by_provider ((eq_iff p r.provider).0 t) in rw t (omega (arith, h, same))
  | inr t ↦ rw t h
]

hand_out-bounds :
    (c : Config) (r : Request) (a : Active) (p : String)
    → a.by_provider r.provider < allowance c r.provider
    → a.by_provider p ≤ allowance c p
    → (hand_out r a).by_provider p ≤ allowance c p
hand_out-bounds c r a p room h = elim (Bool-cases (str_eq p r.provider)) [
  | inl t ↦
      let same = ap (allowance c) ((eq_iff p r.provider).0 t) in rw t (omega (arith, room, same))
  | inr t ↦ rw t h
]

hand_out-Sound :
    (c : Config) (r : Request) (a : Active)
    → verdict c a r ≡ grant
    → Sound c a
    → Sound c (hand_out r a)
unfolding count_where
hand_out-Sound c r a v h =
    let (room, own) = granted_room c a r v in
    record {
      global = omega (arith, h.global);
      by_provider = λ p. hand_out-counts r a p (h.by_provider p);
      global_bound = omega (arith, room);
      bounds = λ p. hand_out-bounds c r a p own (h.bounds p);
    }

pub Verdict-cases : (v : Verdict) → (v ≡ stop) ⊎ ((v ≡ reject) ⊎ ((v ≡ skip) ⊎ (v ≡ grant)))
Verdict-cases stop = inl refl
Verdict-cases reject = inr (inl refl)
Verdict-cases skip = inr (inr (inl refl))
Verdict-cases grant = inr (inr (inr refl))

pub drain-Sound :
    (c : Config) (pending : List Request) (a : Active) → Sound c a → Sound c (drain c pending a).1
unfolding drain
drain-Sound c [] a h = h
drain-Sound c (r ∷ rs) a h = elim (Verdict-cases (verdict c a r)) [
  | inl v ↦ rw (v, drain) h
  | inr (inl v) ↦ rw (v, drain) (drain-Sound c rs a h)
  | inr (inr (inl v)) ↦ rw (v, drain) (drain-Sound c rs a h)
  | inr (inr (inr v)) ↦ rw (v, drain) (drain-Sound c rs (hand_out r a) (hand_out-Sound c r a v h))
]

-- A request that has to wait: its signal is not aborted, and its provider has all its permits.
abbrev pub MustWait : Config → Active → Request → Type 0
MustWait c a r = (r.aborted ≡ false) × (allowance c r.provider ≤ a.by_provider r.provider)

-- The gate is full, or every request has to wait.
abbrev pub Saturated : Config → List Request → Active → Type 0
Saturated c pending a = (c.global_limit ≤ a.global) ⊎ All (MustWait c a) pending

hand_out_grows :
    (r : Request) (a : Active) (p : String) → a.by_provider p ≤ (hand_out r a).by_provider p
hand_out_grows r a p = elim (Bool-cases (str_eq p r.provider)) [
  | inl t ↦ let same = ap a.by_provider ((eq_iff p r.provider).0 t) in rw t (omega (arith, same))
  | inr t ↦ rw t (omega arith)
]

drain_grows :
    (c : Config) (pending : List Request) (a : Active) (p : String)
    → a.by_provider p ≤ (drain c pending a).1.by_provider p
unfolding drain
drain_grows c [] a p = omega arith
drain_grows c (r ∷ rs) a p = elim (Verdict-cases (verdict c a r)) [
  | inl v ↦ rw (v, drain) (omega arith)
  | inr (inl v) ↦ rw (v, drain) (drain_grows c rs a p)
  | inr (inr (inl v)) ↦ rw (v, drain) (drain_grows c rs a p)
  | inr (inr (inr v)) ↦
      rw (v, drain) (omega (arith, hand_out_grows r a p, drain_grows c rs (hand_out r a) p))
]

stop_is_full :
    (c : Config) (a : Active) (r : Request) → verdict c a r ≡ stop → c.global_limit ≤ a.global
unfolding verdict
stop_is_full c a r v = ground arith

skip_waits : (c : Config) (a : Active) (r : Request) → verdict c a r ≡ skip → MustWait c a r
unfolding verdict
skip_waits c a r v = ground arith

skipped-Saturated :
    (c : Config) (r : Request) (rs : List Request) (a : Active)
    → MustWait c a r
    → Saturated c (drain c rs a).0 (drain c rs a).1
    → Saturated c (r ∷ (drain c rs a).0) (drain c rs a).1
skipped-Saturated c r rs a w (inl full) = inl full
skipped-Saturated c r rs a w (inr all) =
    inr ((w.0, omega (arith, w.1, drain_grows c rs a r.provider)), all)

pub drain-Saturated :
    (c : Config) (pending : List Request) (a : Active)
    → Saturated c (drain c pending a).0 (drain c pending a).1
unfolding drain
drain-Saturated c [] a = inr tt
drain-Saturated c (r ∷ rs) a = elim (Verdict-cases (verdict c a r)) [
  | inl v ↦ rw (v, drain) (inl (stop_is_full c a r v))
  | inr (inl v) ↦ rw (v, drain) (drain-Saturated c rs a)
  | inr (inr (inl v)) ↦
      rw (v, drain) (skipped-Saturated c r rs a (skip_waits c a r v) (drain-Saturated c rs a))
  | inr (inr (inr v)) ↦ rw (v, drain) (drain-Saturated c rs (hand_out r a))
]

pub released_live :
    (id : ℕ) (permits : List Permit) (q : String)
    → (mark_released id permits).0 ≡ some q
    → count_where is_live permits ≡ suc (count_where is_live (mark_released id permits).1)
unfolding mark_released count_where
released_live id [] q e = absurd (cc e)
released_live id (p ∷ ps) q e = ground (arith, released_live id ps q)

pub released_live_of :
    (id : ℕ) (permits : List Permit) (q p : String)
    → (mark_released id permits).0 ≡ some q
    → count_where (is_live_of p) permits ≡ (
        if str_eq p q
        then suc (count_where (is_live_of p) (mark_released id permits).1)
        else count_where (is_live_of p) (mark_released id permits).1)
unfolding mark_released count_where
released_live_of id [] q p e = absurd (cc e)
released_live_of id (x ∷ ps) q p e = ground (arith, released_live_of id ps q p)

pub take_back-counts :
    (q : String) (permits : List Permit) (a : Active) (p : String) (n : ℕ)
    → a.by_provider p ≡ n
    → n ≡ (
        if str_eq p q
        then suc (count_where (is_live_of p) permits)
        else count_where (is_live_of p) permits)
    → (take_back q permits a).by_provider p ≡ count_where (is_live_of p) permits
take_back-counts q permits a p n h e = elim (Bool-cases (str_eq p q)) [
  | inl t ↦ let same = ap a.by_provider ((eq_iff p q).0 t) in rw t (ground (arith, same))
  | inr t ↦ rw t (ground arith)
]

pub take_back-le :
    (q : String) (permits : List Permit) (a : Active) (p : String)
    → a.by_provider q ≢ 0
    → (take_back q permits a).by_provider p ≤ a.by_provider p
take_back-le q permits a p n = elim (Bool-cases (str_eq p q)) [
  | inl t ↦ let same = ap a.by_provider ((eq_iff p q).0 t) in rw t (ground (arith, same))
  | inr t ↦ rw t (omega arith)
]
