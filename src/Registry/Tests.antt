-- ===== src/Registry/Tests.antt =====
-- The registry with a concrete sort, by insertion, and callbacks that are numbers.
use mathlib.Core.List.{Permᴰ}
use easy_uds.Prelude.{
  ℕ, ◌≡◌, ◌↔◌, ◌≤◌, refl, arith, inl, inr, false, List, [], ◌∷◌, some, leb, if◌then◌else◌, length,
  Bool-cases,
}
use easy_uds.Routes.{Route}
use easy_uds.Routes.Tables.{KeysAtMost, LongestFirst}
use easy_uds.Registry.{Callbacks, Sorter, find_request_handler, plain_entry}
use easy_uds.Registry.Lookup.{Chosen}
use easy_uds.Registry.History.{
  Registers, calls_exact, calls_prefix, after, empty_registry, dispatch-Chosen,
}

module _ {E : Type 0} where
  abbrev insert : (Route × E) → List (Route × E) → List (Route × E)
  insert x [] = x ∷ []
  insert x (y ∷ t) = if leb (length y.0) (length x.0) then x ∷ y ∷ t else y ∷ insert x t

  abbrev insertion_sort : List (Route × E) → List (Route × E)
  insertion_sort [] = []
  insertion_sort (x ∷ t) = insert x (insertion_sort t)

  same-Perm : (t : List (Route × E)) → Permᴰ t t
  same-Perm [] = Permᴰ.nil
  same-Perm (x ∷ t) = Permᴰ.cons refl (same-Perm t)

  insert-Perm : (x : Route × E) (t : List (Route × E)) → Permᴰ (x ∷ t) (insert x t)
  insert-Perm x [] = Permᴰ.cons refl Permᴰ.nil
  insert-Perm x (y ∷ t) = elim (Bool-cases (leb (length y.0) (length x.0))) [
    | inl h ↦ rw h (same-Perm (x ∷ y ∷ t))
    | inr h ↦ rw h (Permᴰ.trans (Permᴰ.swap refl refl) (Permᴰ.cons refl (insert-Perm x t)))
  ]

  sort-Perm : (t : List (Route × E)) → Permᴰ t (insertion_sort t)
  sort-Perm [] = Permᴰ.nil
  sort-Perm (x ∷ t) = Permᴰ.trans (Permᴰ.cons refl (sort-Perm t)) (insert-Perm x (insertion_sort t))

  insert-KeysAtMost :
      (n : ℕ) (x : Route × E) (t : List (Route × E))
      → length x.0 ≤ n
      → KeysAtMost n t
      → KeysAtMost n (insert x t)
  insert-KeysAtMost n x [] h k = ground arith
  insert-KeysAtMost n x (y ∷ t) h k = elim (Bool-cases (leb (length y.0) (length x.0))) [
    | inl e ↦ rw e (h, k)
    | inr e ↦ rw e (k.0, insert-KeysAtMost n x t h k.1)
  ]

  KeysAtMost-trans : (m n : ℕ) (t : List (Route × E)) → m ≤ n → KeysAtMost m t → KeysAtMost n t
  KeysAtMost-trans m n [] h k = tt
  KeysAtMost-trans m n (y ∷ t) h k = (omega (arith, k.0), KeysAtMost-trans m n t h k.1)

  insert-LongestFirst :
      (x : Route × E) (t : List (Route × E)) → LongestFirst t → LongestFirst (insert x t)
  insert-LongestFirst x [] l = (tt, tt)
  insert-LongestFirst x (y ∷ t) l = elim (Bool-cases (leb (length y.0) (length x.0))) [
    | inl e ↦
        rw e ((ground arith, KeysAtMost-trans (length y.0) (length x.0) t (ground arith) l.0), l)
    | inr e ↦
        rw e (insert-KeysAtMost (length y.0) x t (ground arith) l.0, insert-LongestFirst x t l.1)
  ]

  sort-LongestFirst : (t : List (Route × E)) → LongestFirst (insertion_sort t)
  sort-LongestFirst [] = tt
  sort-LongestFirst (x ∷ t) = insert-LongestFirst x (insertion_sort t) (sort-LongestFirst t)

abbrev by_insertion : Sorter
by_insertion = record {
  sort = λ E t. insertion_sort t;
  sort_perm = λ E t. sort-Perm t;
  sort_sorted = λ E t. sort-LongestFirst t;
}

abbrev numbers : Callbacks
numbers = record { Simple = ℕ; Context = ℕ; Stream = ℕ }

abbrev ab : Route
ab = b'a' ∷ b'b' ∷ []

-- Two prefixes of one route, the shorter first, and a call that throws.
abbrev two_prefixes : List (Registers numbers)
two_prefixes =
    calls_prefix (b'a' ∷ []) (some 1) false
    ∷ calls_prefix ab (some 2) false
    ∷ calls_exact [] (some 3) false
    ∷ []

dispatch-Chosen_example :
    (find_request_handler (after by_insertion 100 two_prefixes (empty_registry by_insertion 100)) ab
      ≡ some (plain_entry 2 false))
    ↔ Chosen
        (after by_insertion 100 two_prefixes (empty_registry by_insertion 100))
        ab
        (plain_entry 2 false)
dispatch-Chosen_example = dispatch-Chosen by_insertion 100 two_prefixes ab (plain_entry 2 false)
