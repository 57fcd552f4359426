-- ===== src/Routes.antt =====
-- Routes as byte strings, and the two lookups that reactor/dispatch.cpp makes in a table of them:
-- `unordered_map::find`, and the scan of a vector of prefixes.
pub mod Tables
use easy_uds.Prelude.{
  ℕ, ◌≡◌, ◌↔◌, refl, ap, Bool, true, false, ◌&&◌, List, [], ◌∷◌, Option, none, some, ◌==◌, ==_iff,
  if◌then◌else◌, arith,
}

-- `std::string`
abbrev pub Route : Type 0
Route = List ℕ

unfoldable pub route_eq : Route → Route → Bool
route_eq [] [] = true
route_eq [] (y ∷ ys) = false
route_eq (x ∷ xs) [] = false
route_eq (x ∷ xs) (y ∷ ys) = x == y && route_eq xs ys

-- `route.size() >= prefix.size() && route.compare(0, prefix.size(), prefix) == 0`
unfoldable pub starts_with : Route → Route → Bool
starts_with [] route = true
starts_with (x ∷ xs) [] = false
starts_with (x ∷ xs) (y ∷ ys) = x == y && starts_with xs ys

module _ {E : Type 0} where
  -- `find` of a map from routes, whose keys differ.
  unfoldable pub lookup : Route → List (Route × E) → Option E
  lookup route [] = none
  lookup route (x ∷ rest) = if route_eq x.0 route then some x.1 else lookup route rest

  -- The first entry of the vector whose key is a prefix of the route.
  unfoldable pub find_prefix : Route → List (Route × E) → Option E
  find_prefix route [] = none
  find_prefix route (x ∷ rest) = if starts_with x.0 route then some x.1 else find_prefix route rest

pub route_eq_refl : (r : Route) → route_eq r r ≡ true
unfolding route_eq
route_eq_refl [] = refl
route_eq_refl (x ∷ xs) = ground (arith, route_eq_refl xs)

pub route_eq→eq : (r s : Route) → route_eq r s ≡ true → r ≡ s
unfolding route_eq
route_eq→eq [] [] h = refl
route_eq→eq [] (y ∷ ys) h = cc
route_eq→eq (x ∷ xs) [] h = cc
route_eq→eq (x ∷ xs) (y ∷ ys) h = ground (arith, route_eq→eq xs ys)
