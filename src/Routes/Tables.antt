-- ===== src/Routes/Tables.antt =====
-- Tables of routes with distinct keys, in any order or from the longest key to the shortest.
use mathlib.Core.List.{Permᴰ}
use easy_uds.Prelude.{
  ℕ, ◌≤◌, ◌≡◌, ◌⊎◌, inl, inr, refl, ap, sym, ◌∙◌, true, false, List, [], ◌∷◌, none, some, arith,
  length, Bool-cases, Option-cases,
}
use easy_uds.Routes.{Route, starts_with, lookup, find_prefix, route_eq_refl, route_eq→eq}

-- Two prefixes of one route are equal if they are equally long.
prefix_unique :
    (p q r : Route) → starts_with p r ≡ true → starts_with q r ≡ true → length p ≡ length q → p ≡ q
unfolding starts_with
prefix_unique [] [] r h k e = refl
prefix_unique [] (y ∷ q) r h k e = absurd (omega arith)
prefix_unique (x ∷ p) [] r h k e = absurd (omega arith)
prefix_unique (x ∷ p) (y ∷ q) [] h k e = cc
prefix_unique (x ∷ p) (y ∷ q) (z ∷ r) h k e = ground (arith, prefix_unique p q r)

module _ {E : Type 0} where
  abbrev pub DistinctKeys : List (Route × E) → Type 0
  DistinctKeys [] = Unit {0}
  DistinctKeys (x ∷ rest) = (lookup x.0 rest ≡ none) × DistinctKeys rest

  abbrev pub KeysAtMost : ℕ → List (Route × E) → Type 0
  KeysAtMost n [] = Unit {0}
  KeysAtMost n (x ∷ rest) = (length x.0 ≤ n) × KeysAtMost n rest

  -- From the longest key to the shortest.
  abbrev pub LongestFirst : List (Route × E) → Type 0
  LongestFirst [] = Unit {0}
  LongestFirst (x ∷ rest) = KeysAtMost (length x.0) rest × LongestFirst rest

  -- The entry is in the table, its key is a prefix of the route, and no longer key is.
  pub record Serves (table : List (Route × E)) (route : Route) (e : E) : Type 0 where
    pub key : Route
    pub present : lookup key table ≡ some e
    pub matches : starts_with key route ≡ true
    pub longest :
        (q : Route) (e' : E)
        → lookup q table ≡ some e'
        → starts_with q route ≡ true
        → length q ≤ length key

  lookup_self : (x : Route × E) (t : List (Route × E)) → lookup x.0 (x ∷ t) ≡ some x.1
  unfolding lookup
  lookup_self x t = rw (route_eq_refl x.0)

  lookup-KeysAtMost :
      (n : ℕ) (t : List (Route × E)) (q : Route) (e : E)
      → KeysAtMost n t
      → lookup q t ≡ some e
      → length q ≤ n
  unfolding lookup
  lookup-KeysAtMost n [] q e k h = cc
  lookup-KeysAtMost n (x ∷ t) q e k h = ground (arith, route_eq→eq x.0 q, lookup-KeysAtMost n t q e)

  lookup-cons :
      (x : Route × E) (t : List (Route × E)) (q : Route) (e : E)
      → lookup q (x ∷ t) ≡ some e
      → (x.0 ≡ q) ⊎ (lookup q t ≡ some e)
  unfolding lookup
  lookup-cons x t q e h = ground (arith, route_eq→eq x.0 q)

  later_key :
      (x : Route × E) (t : List (Route × E)) (q : Route) (e : E)
      → lookup x.0 t ≡ none
      → lookup q t ≡ some e
      → lookup q (x ∷ t) ≡ some e
  unfolding lookup
  later_key x t q e a h = ground (arith, route_eq→eq x.0 q)

  -- The scan finds nothing only where no key is a prefix.
  pub find_prefix-eq-none :
      (t : List (Route × E)) (r : Route)
      → find_prefix r t ≡ none
      → (q : Route) (e : E) → lookup q t ≡ some e
      → starts_with q r ≡ false
  unfolding find_prefix
  find_prefix-eq-none [] r h q e k = unfold lookup in cc
  find_prefix-eq-none (x ∷ t) r h q e k = elim (lookup-cons x t q e k) [
    | inl same ↦ rw (← same) (ground arith)
    | inr rest ↦ find_prefix-eq-none t r (ground arith) q e rest
  ]

  -- The scan of a table from the longest key down finds the entry of the longest prefix.
  pub find_prefix-Serves :
      (t : List (Route × E)) (r : Route) (e : E)
      → DistinctKeys t
      → LongestFirst t
      → find_prefix r t ≡ some e
      → Serves t r e
  unfolding find_prefix
  find_prefix-Serves [] r e d l h = cc
  find_prefix-Serves (x ∷ t) r e d l h = elim (Bool-cases (starts_with x.0 r)) [
    | inl m ↦ record {
      key = x.0;
      present = lookup_self x t ∙ (rw (m, find_prefix) at h);
      matches = m;
      longest = λ q e' k _. elim (lookup-cons x t q e' k) [
        | inl same ↦ rw same (omega arith)
        | inr rest ↦ lookup-KeysAtMost (length x.0) t q e' l.0 rest
      ];
    }
    | inr m ↦
        let s = find_prefix-Serves t r e d.1 l.1 (rw (m, find_prefix) at h) in
        record {
          key = s.key;
          present = later_key x t s.key e d.0 s.present;
          matches = s.matches;
          longest = λ q e' k sw. elim (lookup-cons x t q e' k) [
            | inl same ↦ let sw' = rw (← same) at sw in cc
            | inr rest ↦ s.longest q e' rest sw
          ];
        }
  ]

  -- At most one entry serves a route.
  pub Serves-unique :
      (t : List (Route × E)) (r : Route) (e e' : E) → Serves t r e → Serves t r e' → e ≡ e'
  Serves-unique t r e e' s s' =
      let same = prefix_unique s.key s'.key r s.matches s'.matches (
        omega (
          arith,
          s.longest s'.key e' s'.present s'.matches,
          s'.longest s.key e s.present s.matches,
        )) in
      cc (s.present, s'.present)

  pub Serves-find_prefix :
      (t : List (Route × E)) (r : Route) (e : E)
      → DistinctKeys t
      → LongestFirst t
      → Serves t r e
      → find_prefix r t ≡ some e
  Serves-find_prefix t r e d l s = elim (Option-cases (find_prefix r t)) [
    | inl missed ↦ let no_match = find_prefix-eq-none t r missed s.key e s.present in cc (s.matches)
    | inr (e', found) ↦
        found ∙ ap some (Serves-unique t r e' e (find_prefix-Serves t r e' d l found) s)
  ]

  -- A rearrangement of a table with distinct keys has distinct keys and the same entries.
  swap_lookup :
      (x y : Route × E) (t : List (Route × E)) (q : Route)
      → lookup y.0 (x ∷ t) ≡ none
      → lookup q (y ∷ x ∷ t) ≡ lookup q (x ∷ y ∷ t)
  unfolding lookup
  swap_lookup x y t q d = ground (arith, route_eq→eq x.0 q, route_eq→eq y.0 q, route_eq_refl q)

  swap_DistinctKeys :
      (x y : Route × E) (t : List (Route × E)) → DistinctKeys (y ∷ x ∷ t) → DistinctKeys (x ∷ y ∷ t)
  unfolding lookup
  swap_DistinctKeys x y t d = ground (arith, route_eq→eq y.0 x.0, route_eq_refl x.0)

  cons_lookup :
      (x : Route × E) (t u : List (Route × E)) (q : Route)
      → lookup q t ≡ lookup q u
      → lookup q (x ∷ t) ≡ lookup q (x ∷ u)
  unfolding lookup
  cons_lookup x t u q h = rw h

  pub perm-lookup :
      {t u : List (Route × E)}
      → Permᴰ t u
      → DistinctKeys t
      → DistinctKeys u × ((q : Route) → lookup q t ≡ lookup q u)
  perm-lookup Permᴰ.nil d = (tt, λ q. refl)
  perm-lookup (Permᴰ.cons {a} {b} {l₁} {l₂} e p) d =
      let (d', same) = perm-lookup p d.1 in
      rw (← e) ((sym (same a.0) ∙ d.0, d'), λ q. cons_lookup a l₁ l₂ q (same q))
  perm-lookup (Permᴰ.swap {a} {b} {a'} {b'} {l} e f) d =
      rw (← e, ← f) (swap_DistinctKeys b a l d, λ q. swap_lookup b a l q d.0)
  perm-lookup (Permᴰ.trans p q) d =
      let (d', same) = perm-lookup p d in
      let (d'', same') = perm-lookup q d' in (d'', λ r. same r ∙ same' r)
