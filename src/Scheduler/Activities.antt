-- ===== src/Scheduler/Activities.antt =====
-- How an assignment to one domain's activity shows in the others, and in sums over all domains.
use easy_uds.Prelude.{
  ℕ, ◌+◌, ◌≡◌, ◌≢◌, ◌⊎◌, inl, inr, refl, sym, ◌∙◌, ap, arith, true, false, List, [], ◌∷◌, none,
  some, if◌then◌else◌, Bool-cases,
}
use easy_uds.Routes.{Route, route_eq, route_eq_refl, route_eq→eq}
use easy_uds.Scheduler.{
  SerializedDomainActivity, idle, Scheduler, find_named, find_serialized_domain_activity,
  activity_of, put_named, put_activity,
}

abbrev pub Weight : Type 0
Weight = SerializedDomainActivity → ℕ

abbrev pub named_sum : Weight → List (Route × SerializedDomainActivity) → ℕ
named_sum w [] = 0
named_sum w (e ∷ rest) = w e.1 + named_sum w rest

-- The sum over all domains.
abbrev pub domain_sum : Weight → Scheduler → ℕ
domain_sum w s = w s.default_activity + named_sum w s.named_activity

abbrev named_or_idle : Route → List (Route × SerializedDomainActivity) → SerializedDomainActivity
named_or_idle d t = elim (find_named d t) [ none ↦ idle | some a ↦ a ]

pub route_cases :
    (d e : Route) → ((route_eq d e ≡ true) × (d ≡ e)) ⊎ ((route_eq d e ≡ false) × (d ≢ e))
route_cases d e = elim (Bool-cases (route_eq d e)) [
  | inl t ↦ inl (t, route_eq→eq d e t)
  | inr f ↦ inr (f, λ same. let h = route_eq_refl e in let bad = rw same at f in cc)
]

pub not_same : (d e : Route) → d ≢ e → route_eq d e ≡ false
not_same d e h = elim (route_cases d e) [ inl (t, same) ↦ absurd (h same) | inr (f, other) ↦ f ]

find_named-put :
    (d e : Route) (a : SerializedDomainActivity) (t : List (Route × SerializedDomainActivity))
    → find_named e (put_named d a t) ≡ (if route_eq d e then some a else find_named e t)
unfolding find_named put_named
find_named-put d e a [] = refl
find_named-put d e a (x ∷ rest) =
    let ih = find_named-put d e a rest in
    elim (route_cases x.0 d) [
      | inl (h, same) ↦
          let q = ap (λ r. route_eq r e) same in
          elim (Bool-cases (route_eq d e)) [ inl t ↦ rw (h, q, t) | inr f ↦ rw (h, q, f) ]
      | inr (h, other) ↦ elim (route_cases x.0 e) [
        | inl (t, here) ↦ rw (h, t, not_same d e λ both. other (here ∙ sym both))
        | inr (f, there) ↦ rw (h, f) ih
      ]
    ]

pub activity_of-put :
    (d e : Route) (a : SerializedDomainActivity) (s : Scheduler)
    → activity_of e (put_activity d a s) ≡ (if route_eq d e then a else activity_of e s)
unfolding activity_of find_serialized_domain_activity put_activity route_eq
activity_of-put [] [] a s = refl
activity_of-put [] (y ∷ e) a s = refl
activity_of-put (x ∷ d) [] a s = refl
activity_of-put (x ∷ d) (y ∷ e) a s = elim (Bool-cases (route_eq (x ∷ d) (y ∷ e))) [
  | inl t ↦ let f = find_named-put (x ∷ d) (y ∷ e) a s.named_activity in ground (arith, f)
  | inr t ↦ let f = find_named-put (x ∷ d) (y ∷ e) a s.named_activity in ground (arith, f)
]

named_sum-put :
    (w : Weight) (d : Route) (a : SerializedDomainActivity)
    (t : List (Route × SerializedDomainActivity))
    → w idle ≡ 0
    → named_sum w (put_named d a t) + w (named_or_idle d t) ≡ named_sum w t + w a
unfolding put_named find_named
named_sum-put w d a [] z = omega (arith, z)
named_sum-put w d a (x ∷ rest) z = elim (Bool-cases (route_eq x.0 d)) [
  | inl e ↦ ground arith
  | inr e ↦ let ih = named_sum-put w d a rest z in ground arith
]

pub domain_sum-put :
    (w : Weight) (d : Route) (a : SerializedDomainActivity) (s : Scheduler)
    → w idle ≡ 0
    → domain_sum w (put_activity d a s) + w (activity_of d s) ≡ domain_sum w s + w a
unfolding put_activity activity_of find_serialized_domain_activity
domain_sum-put w [] a s z = omega arith
domain_sum-put w (x ∷ d) a s z =
    let named = named_sum-put w (x ∷ d) a s.named_activity z in omega arith

-- Of two assignments to one domain the second counts.
pub put_named-put :
    (d : Route) (a b : SerializedDomainActivity) (t : List (Route × SerializedDomainActivity))
    → put_named d b (put_named d a t) ≡ put_named d b t
unfolding put_named
put_named-put d a b [] = let own = route_eq_refl d in ground arith
put_named-put d a b (x ∷ rest) =
    let ih = put_named-put d a b rest in
    elim (Bool-cases (route_eq x.0 d)) [ inl e ↦ ground arith | inr e ↦ ground arith ]
