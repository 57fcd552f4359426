-- ===== src/Registry/History.antt =====
-- Any history of registrations, from the empty registry of a new server.
use easy_uds.Prelude.{
  ℕ, ◌≡◌, ◌↔◌, refl, true, false, Bool, List, [], ◌∷◌, Option, some, ok, err, Result, checks,
  >>=-eq-ok,
}
use easy_uds.Routes.{Route}
use easy_uds.Registry.{
  Callbacks, RouteScheduling, HandlerEntry, HandlerRegistry, Sorter, find_request_handler, exact,
  exact_options, exact_serialized_options, prefix, prefix_options, stream, stream_prefix,
  make_route_options_entry, present, route_checks, no_handler, default_domain_checks,
  default_scheduling,
}
use easy_uds.Registry.Lookup.{IsWellFormed, Chosen, find_request_handler_iff}
use easy_uds.Registry.Registration.{
  add_exact-IsWellFormed, add_prefix-IsWellFormed, add_stream-IsWellFormed,
  add_stream_prefix-IsWellFormed,
}

-- One call of the registration interface.
pub data Registers (c : Callbacks) : Type 0 where
  calls_exact calls_prefix : Route → Option c.Simple → Bool → Registers c
  calls_exact_options calls_prefix_options :
      Route → Option c.Simple → Option c.Context → Bool → Bool → RouteScheduling → Registers c
  calls_exact_serialized :
      Route → Option c.Simple → Option c.Context → Bool → RouteScheduling → Registers c
  calls_stream calls_stream_prefix : Route → Option c.Stream → Registers c

module _ {c : Callbacks} (sorter : Sorter) (max_message_size : ℕ) where
  abbrev pub call : Registers c → HandlerRegistry c → Result (HandlerRegistry c)
  call (calls_exact route h s) r = exact max_message_size route h s r
  call (calls_prefix route h s) r = prefix sorter max_message_size route h s r
  call (calls_exact_options route h x s a sch) r =
      exact_options max_message_size route h x s a sch r
  call (calls_prefix_options route h x s a sch) r =
      prefix_options sorter max_message_size route h x s a sch r
  call (calls_exact_serialized route h x s sch) r =
      exact_serialized_options max_message_size route h x s sch r
  call (calls_stream route h) r = stream max_message_size route h r
  call (calls_stream_prefix route h) r = stream_prefix sorter max_message_size route h r

  -- A call that throws leaves the published registry in place.
  abbrev pub published : HandlerRegistry c → Result (HandlerRegistry c) → HandlerRegistry c
  published r (ok r') = r'
  published r (err e) = r

  abbrev pub after : List (Registers c) → HandlerRegistry c → HandlerRegistry c
  after [] r = r
  after (x ∷ xs) r = after xs (published r (call x r))

  call-IsWellFormed :
      (x : Registers c) (r r' : HandlerRegistry c)
      → call x r ≡ ok r'
      → IsWellFormed r
      → IsWellFormed r'
  unfolding exact prefix exact_options prefix_options exact_serialized_options stream stream_prefix
  call-IsWellFormed (calls_exact route h s) r r' e w =
      let (_, _, e1) = >>=-eq-ok (checks (route_checks route max_message_size)) _ e in
      let (f, _, e2) = >>=-eq-ok (present h no_handler) _ e1 in
      add_exact-IsWellFormed route _ r r' e2 w
  call-IsWellFormed (calls_prefix route h s) r r' e w =
      let (_, _, e1) = >>=-eq-ok (checks (route_checks route max_message_size)) _ e in
      let (f, _, e2) = >>=-eq-ok (present h no_handler) _ e1 in
      add_prefix-IsWellFormed sorter route _ r r' e2 w
  call-IsWellFormed (calls_exact_options route h x s a sch) r r' e w =
      let (_, _, e1) = >>=-eq-ok (checks (route_checks route max_message_size)) _ e in
      let (f, _, e2) = >>=-eq-ok (present (make_route_options_entry h x s a sch) no_handler) _ e1 in
      add_exact-IsWellFormed route _ r r' e2 w
  call-IsWellFormed (calls_prefix_options route h x s a sch) r r' e w =
      let (_, _, e1) = >>=-eq-ok (checks (route_checks route max_message_size)) _ e in
      let (f, _, e2) = >>=-eq-ok (present (make_route_options_entry h x s a sch) no_handler) _ e1 in
      add_prefix-IsWellFormed sorter route _ r r' e2 w
  call-IsWellFormed (calls_exact_serialized route h x s sch) r r' e w =
      let (_, _, e1) = >>=-eq-ok (checks (route_checks route max_message_size)) _ e in
      let (f, _, e2) =
        >>=-eq-ok (present (make_route_options_entry h x true false default_scheduling) no_handler)
          _ e1 in
      let (_, _, e3) = >>=-eq-ok (checks (default_domain_checks s sch)) _ e2 in
      add_exact-IsWellFormed route _ r r' e3 w
  call-IsWellFormed (calls_stream route h) r r' e w =
      let (_, _, e1) = >>=-eq-ok (checks (route_checks route max_message_size)) _ e in
      let (f, _, e2) = >>=-eq-ok (present h _) _ e1 in
      add_stream-IsWellFormed sorter route _ r r' e2 w
  call-IsWellFormed (calls_stream_prefix route h) r r' e w =
      let (_, _, e1) = >>=-eq-ok (checks (route_checks route max_message_size)) _ e in
      let (f, _, e2) = >>=-eq-ok (present h _) _ e1 in
      add_stream_prefix-IsWellFormed sorter route _ r r' e2 w

  after-IsWellFormed :
      (xs : List (Registers c)) (r : HandlerRegistry c) → IsWellFormed r → IsWellFormed (after xs r)
  after-IsWellFormed [] r w = w
  after-IsWellFormed (x ∷ xs) r w =
      after-IsWellFormed xs (published r (call x r)) (step (call x r) refl)
    where
      step : (res : Result (HandlerRegistry c)) → call x r ≡ res → IsWellFormed (published r res)
      step (ok r') e = call-IsWellFormed x r r' e w
      step (err _) e = w

  abbrev pub empty_registry : HandlerRegistry c
  empty_registry = record {
    handlers = [];
    handler_prefixes = [];
    stream_handlers = [];
    stream_prefixes = [];
  }

  -- After any calls, failed ones included, on a new server, and whatever order the sort gives to
  -- keys of one length, a route gets the handler of its exact entry, or else of its longest prefix.
  pub dispatch-Chosen :
      (xs : List (Registers c)) (route : Route) (e : HandlerEntry c)
      → (find_request_handler (after xs empty_registry) route ≡ some e)
        ↔ Chosen (after xs empty_registry) route e
  dispatch-Chosen xs route e = find_request_handler_iff (after xs empty_registry) route e (
      after-IsWellFormed xs empty_registry (record {
        handlers_distinct = tt;
        prefixes_distinct = tt;
        prefixes_sorted = tt;
        streams_distinct = tt;
        stream_prefixes_distinct = tt;
        stream_prefixes_sorted = tt;
      }))
