-- ===== src/Registry/Registration.antt =====
-- What a registration does to the registry.
use easy_uds.Prelude.{
  ℕ, ◌≡◌, ◌∙◌, sym, ap, ◌⊎◌, inl, inr, refl, Bool, true, false, List, [], ◌∷◌, ◌++◌, none, some,
  arith, Option-cases, Bool-cases, if◌then◌else◌, length, ◌≤◌, ok, checks, ok-injective, >>=-eq-ok,
}
use easy_uds.Routes.{Route, route_eq, lookup, starts_with, route_eq→eq, route_eq_refl}
use easy_uds.Routes.Tables.{DistinctKeys, Serves, perm-lookup}
use easy_uds.Registry.{
  Callbacks, HandlerEntry, HandlerRegistry, Sorter, is_known, find_request_handler, prefix,
  add_exact, add_prefix, add_stream, add_stream_prefix, route_checks, plain_entry,
}
use easy_uds.Registry.Lookup.{IsWellFormed, find_request_handler_iff}

module _ {E : Type 0} where
  is_known-eq-false : (q : Route) (t : List (Route × E)) → is_known q t ≡ false → lookup q t ≡ none
  unfolding is_known
  is_known-eq-false q t h = elim (Option-cases (lookup q t)) [
    | inl e ↦ e
    | inr (x, e) ↦ let bad = rw (e, is_known) at h in cc
  ]

  lookup-append_one :
      (t : List (Route × E)) (x : Route × E) (q : Route)
      → lookup x.0 t ≡ none
      → lookup q (t ++ x ∷ []) ≡ (if route_eq x.0 q then some x.1 else lookup q t)
  unfolding lookup
  lookup-append_one [] x q a = refl
  lookup-append_one (y ∷ t) x q a =
      ground (arith, lookup-append_one t x q, route_eq→eq y.0 q, route_eq→eq x.0 q, route_eq_refl q)

  DistinctKeys-append_one :
      (t : List (Route × E)) (x : Route × E)
      → lookup x.0 t ≡ none
      → DistinctKeys t
      → DistinctKeys (t ++ x ∷ [])
  unfolding lookup
  DistinctKeys-append_one [] x a d = (refl, tt)
  DistinctKeys-append_one (y ∷ t) x a d = ground (
    arith,
    lookup-append_one t x y.0,
    DistinctKeys-append_one t x,
    route_eq→eq x.0 y.0,
    route_eq_refl x.0,
  )

  -- The sorted table after one more entry.
  sorted_append :
      (s : Sorter) (t : List (Route × E)) (x : Route × E)
      → lookup x.0 t ≡ none
      → DistinctKeys t
      → DistinctKeys (s.sort E (t ++ x ∷ []))
        × ((q : Route)
            → lookup q (s.sort E (t ++ x ∷ [])) ≡ (if route_eq x.0 q then some x.1 else lookup q t))
  sorted_append s t x a d =
      let (d', same) =
        perm-lookup (s.sort_perm E (t ++ x ∷ [])) (DistinctKeys-append_one t x a d) in
      (d', λ q. sym (same q) ∙ lookup-append_one t x q a)

  -- A table with one more entry, described by its lookups.
  module _ (t t' : List (Route × E)) (x : Route × E)
      (extended : (q : Route)
        → lookup q t' ≡ (if route_eq x.0 q then some x.1 else lookup q t)) where
    extended-cases : (q : Route) (e : E) → lookup q t' ≡ some e → (x.0 ≡ q) ⊎ (lookup q t ≡ some e)
    extended-cases q e h = elim (Bool-cases (route_eq x.0 q)) [
      | inl same ↦ inl (route_eq→eq x.0 q same)
      | inr other ↦ inr (sym (rw other at (extended q)) ∙ h)
    ]

    -- The new entry serves a route that it fits, if no longer key of the old table does.
    new-Serves :
        (route : Route)
        → starts_with x.0 route ≡ true
        → ((q : Route) (e : E)
            → lookup q t ≡ some e
            → starts_with q route ≡ true
            → length q ≤ length x.0)
        → Serves t' route x.1
    new-Serves route fits longest = record {
      key = x.0;
      present = rw (route_eq_refl x.0) at (extended x.0);
      matches = fits;
      longest = λ q e k sw. elim (extended-cases q e k) [
        | inl same ↦ rw same (omega arith)
        | inr old ↦ longest q e old sw
      ];
    }

    -- A route that the new key does not fit is served as before.
    old-Serves :
        (route : Route) (e : E)
        → starts_with x.0 route ≡ false
        → Serves t route e
        → Serves t' route e
    old-Serves route e unfit s = record {
      key = s.key;
      present = elim (Bool-cases (route_eq x.0 s.key)) [
        | inl same ↦ let bad = rw (route_eq→eq x.0 s.key same) at unfit in cc (s.matches)
        | inr other ↦ (rw other at (extended s.key)) ∙ s.present
      ];
      matches = s.matches;
      longest = λ q e' k sw. elim (extended-cases q e' k) [
        | inl same ↦ let bad = rw same at unfit in cc
        | inr old ↦ s.longest q e' old sw
      ];
    }

module _ {c : Callbacks} where
  -- An exact registration that succeeds adds one entry under a new key.
  add_exact-eq-ok :
      (route : Route) (e : HandlerEntry c) (r r' : HandlerRegistry c)
      → add_exact route e r ≡ ok r'
      → (lookup route r.handlers ≡ none) × (record r { handlers = (route, e) ∷ r.handlers } ≡ r')
  unfolding add_exact
  add_exact-eq-ok route e r r' h = elim (Bool-cases (is_known route r.handlers)) [
    | inl known ↦ let bad = rw (known, add_exact) at h in cc
    | inr fresh ↦
        (is_known-eq-false route r.handlers fresh, ok-injective (rw (fresh, add_exact) at h))
  ]

  pub add_exact-IsWellFormed :
      (route : Route) (e : HandlerEntry c) (r r' : HandlerRegistry c)
      → add_exact route e r ≡ ok r'
      → IsWellFormed r
      → IsWellFormed r'
  add_exact-IsWellFormed route e r r' h w =
      let (fresh, same) = add_exact-eq-ok route e r r' h in
      rw (← same) (record {
        handlers_distinct = (fresh, w.handlers_distinct);
        prefixes_distinct = w.prefixes_distinct;
        prefixes_sorted = w.prefixes_sorted;
        streams_distinct = w.streams_distinct;
        stream_prefixes_distinct = w.stream_prefixes_distinct;
        stream_prefixes_sorted = w.stream_prefixes_sorted;
      })

  module _ (sorter : Sorter) where
    -- A prefix registration that succeeds adds one entry under a new key and sorts.
    add_prefix-eq-ok :
        (route : Route) (e : HandlerEntry c) (r r' : HandlerRegistry c)
        → add_prefix sorter route e r ≡ ok r'
        → (lookup route r.handler_prefixes ≡ none)
          × (record r {
            handler_prefixes = sorter.sort (HandlerEntry c) (r.handler_prefixes ++ (route, e) ∷ []);
          }
              ≡ r')
    unfolding add_prefix
    add_prefix-eq-ok route e r r' h = elim (Bool-cases (is_known route r.handler_prefixes)) [
      | inl known ↦ let bad = rw (known, add_prefix) at h in cc
      | inr fresh ↦ (
        is_known-eq-false route r.handler_prefixes fresh,
        ok-injective (rw (fresh, add_prefix) at h),
      )
    ]

    pub add_prefix-IsWellFormed :
        (route : Route) (e : HandlerEntry c) (r r' : HandlerRegistry c)
        → add_prefix sorter route e r ≡ ok r'
        → IsWellFormed r
        → IsWellFormed r'
    add_prefix-IsWellFormed route e r r' h w =
        let (fresh, same) = add_prefix-eq-ok route e r r' h in
        rw (← same) (record {
          handlers_distinct = w.handlers_distinct;
          prefixes_distinct =
              (sorted_append sorter r.handler_prefixes (route, e) fresh w.prefixes_distinct).0;
          prefixes_sorted = sorter.sort_sorted (HandlerEntry c) _;
          streams_distinct = w.streams_distinct;
          stream_prefixes_distinct = w.stream_prefixes_distinct;
          stream_prefixes_sorted = w.stream_prefixes_sorted;
        })

    pub add_stream-IsWellFormed :
        (route : Route) (h : c.Stream) (r r' : HandlerRegistry c)
        → add_stream route h r ≡ ok r'
        → IsWellFormed r
        → IsWellFormed r'
    unfolding add_stream
    add_stream-IsWellFormed route h r r' e w =
        elim (Bool-cases (is_known route r.stream_handlers)) [
          | inl known ↦ let bad = rw (known, add_stream) at e in cc
          | inr fresh ↦
              let same = ok-injective (rw (fresh, add_stream) at e) in
              rw (← same) (record {
                handlers_distinct = w.handlers_distinct;
                prefixes_distinct = w.prefixes_distinct;
                prefixes_sorted = w.prefixes_sorted;
                streams_distinct =
                    (is_known-eq-false route r.stream_handlers fresh, w.streams_distinct);
                stream_prefixes_distinct = w.stream_prefixes_distinct;
                stream_prefixes_sorted = w.stream_prefixes_sorted;
              })
        ]

    pub add_stream_prefix-IsWellFormed :
        (route : Route) (h : c.Stream) (r r' : HandlerRegistry c)
        → add_stream_prefix sorter route h r ≡ ok r'
        → IsWellFormed r
        → IsWellFormed r'
    unfolding add_stream_prefix
    add_stream_prefix-IsWellFormed route h r r' e w =
        elim (Bool-cases (is_known route r.stream_prefixes)) [
          | inl known ↦ let bad = rw (known, add_stream_prefix) at e in cc
          | inr fresh ↦
              let same = ok-injective (rw (fresh, add_stream_prefix) at e) in
              rw (← same) (record {
                handlers_distinct = w.handlers_distinct;
                prefixes_distinct = w.prefixes_distinct;
                prefixes_sorted = w.prefixes_sorted;
                streams_distinct = w.streams_distinct;
                stream_prefixes_distinct =
                    (sorted_append sorter r.stream_prefixes (route, h)
                      (is_known-eq-false route r.stream_prefixes fresh)
                      w.stream_prefixes_distinct).0;
                stream_prefixes_sorted = sorter.sort_sorted c.Stream _;
              })
        ]

    -- After a prefix has been registered, a route without an exact entry gets its handler exactly
    -- when the prefix fits and no longer registered prefix does; other routes keep theirs.
    pub prefix-serves :
        (n : ℕ) (p : Route) (h : c.Simple) (ser : Bool) (r r' : HandlerRegistry c)
        → IsWellFormed r
        → prefix sorter n p (some h) ser r ≡ ok r'
        → (route : Route) → lookup route r.handlers ≡ none
        → (starts_with p route ≡ true
            → ((q : Route) (e : HandlerEntry c)
                → lookup q r.handler_prefixes ≡ some e
                → starts_with q route ≡ true
                → length q ≤ length p)
            → find_request_handler r' route ≡ some (plain_entry h ser))
          × (starts_with p route ≡ false
              → (e : HandlerEntry c) → find_request_handler r route ≡ some e
              → find_request_handler r' route ≡ some e)
    unfolding prefix
    prefix-serves n p h ser r r' w e route exact_none =
        let (_, _, added) = >>=-eq-ok (checks (route_checks p n)) _ e in
        let entry : HandlerEntry c = plain_entry h ser in
        let (fresh, same) = add_prefix-eq-ok p entry r r' added in
        let w' = add_prefix-IsWellFormed p entry r r' added w in
        let extended =
          (sorted_append sorter r.handler_prefixes (p, entry) fresh w.prefixes_distinct).1 in
        let exact_none' : lookup route r'.handlers ≡ none = rw (← same) exact_none in
        let table = λ (q : Route).
          sym (ap (λ (u : HandlerRegistry c). lookup q u.handler_prefixes) same) ∙ extended q in
        (
          (λ fits longest. (find_request_handler_iff r' route entry w').1 (
              inr (
                exact_none',
                new-Serves r.handler_prefixes r'.handler_prefixes (p, entry) table route fits
                    longest,
              ))),
          (λ unfit e0 found. elim ((find_request_handler_iff r route e0 w).0 found) [
            | inl there ↦ cc
            | inr (_, s) ↦ (find_request_handler_iff r' route e0 w').1 (
                inr (
                  exact_none',
                  old-Serves r.handler_prefixes r'.handler_prefixes (p, entry) table route e0 unfit
                      s,
                ))
          ]),
        )
