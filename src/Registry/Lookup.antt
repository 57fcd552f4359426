-- ===== src/Registry/Lookup.antt =====
-- Which handler a route gets.
use easy_uds.Prelude.{◌≡◌, ◌↔◌, ◌⊎◌, inl, inr, ◌∙◌, none, some, Option-cases}
use easy_uds.Routes.{Route, lookup}
use easy_uds.Routes.Tables.{
  DistinctKeys, LongestFirst, Serves, find_prefix-Serves, Serves-find_prefix,
}
use easy_uds.Registry.{Callbacks, HandlerEntry, HandlerRegistry, find_request_handler}

module _ {c : Callbacks} where
  -- Keys differ within each table, and both vectors stand from the longest prefix down.
  pub record IsWellFormed (r : HandlerRegistry c) : Type 0 where
    pub handlers_distinct : DistinctKeys r.handlers
    pub prefixes_distinct : DistinctKeys r.handler_prefixes
    pub prefixes_sorted : LongestFirst r.handler_prefixes
    pub streams_distinct : DistinctKeys r.stream_handlers
    pub stream_prefixes_distinct : DistinctKeys r.stream_prefixes
    pub stream_prefixes_sorted : LongestFirst r.stream_prefixes

  -- The specification: the exact entry, or else that of the longest prefix of the route.
  abbrev pub Chosen : HandlerRegistry c → Route → HandlerEntry c → Type 0
  Chosen r route e =
      (lookup route r.handlers ≡ some e)
      ⊎ ((lookup route r.handlers ≡ none) × Serves r.handler_prefixes route e)

  -- In a well-formed registry the lookup finds an entry exactly when the specification names it.
  pub find_request_handler_iff :
      (r : HandlerRegistry c) (route : Route) (e : HandlerEntry c)
      → IsWellFormed r
      → (find_request_handler r route ≡ some e) ↔ Chosen r route e
  unfolding find_request_handler
  find_request_handler_iff r route e w = elim (Option-cases (lookup route r.handlers)) [
    | inl missed ↦ (
      (λ h. inr (
        missed,
        find_prefix-Serves _ route e w.prefixes_distinct w.prefixes_sorted
            (rw (missed, find_request_handler) at h),
      )),
      (λ ch.
          rw (missed, find_request_handler)
            (elim ch [
              | inl found ↦ cc
              | inr (_, s) ↦ Serves-find_prefix _ route e w.prefixes_distinct w.prefixes_sorted s
            ])),
    )
    | inr (e', found) ↦ (
      (λ h. inl (found ∙ (rw (found, find_request_handler) at h))),
      (λ ch. rw (found, find_request_handler) (elim ch [ inl same ↦ cc | inr (missed, _) ↦ cc ])),
    )
  ]
