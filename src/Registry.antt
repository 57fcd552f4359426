-- ===== src/Registry.antt =====
-- runtime/server_registration.cpp with the handler entries and the registry of reactor/core.hpp,
-- and the two handler lookups of reactor/dispatch.cpp. A registration copies the published
-- registry, changes the copy and publishes it; a `throw` leaves the published one in place, so an
-- operation is a function from the registry to a new one or an exception. Callbacks are user code:
-- their types are parameters, and an empty `std::function` is `none`.
pub mod Lookup
pub mod Registration
pub mod History
mod Tests
use mathlib.Core.List.{Permᴰ}
use easy_uds.Prelude.{
  ℕ, ◌+◌, ◌*◌, ◌/◌, ◌%◌, ◌≡◌, Bool, true, false, not, ◌&&◌, ◌||◌, List, [], ◌∷◌, ◌++◌, Option, none,
  some, ◌==◌, ltb, if◌then◌else◌, length, Exception, invalid_argument, length_error, runtime_error,
  Result, ok, err, ◌>>=◌, ◌>>◌, checks,
}
use easy_uds.Routes.{Route, route_eq, lookup, find_prefix}
use easy_uds.Routes.Tables.{LongestFirst}

pub data QueuePolicy : Type 0 where
  fifo latest_wins reject_if_busy : QueuePolicy

pub record RouteScheduling : Type 0 where
  pub domain : Route
  pub policy : QueuePolicy

abbrev pub default_scheduling : RouteScheduling
default_scheduling = record { domain = []; policy = fifo }

-- The types of user callbacks.
pub record Callbacks : Type 1 where
  pub Simple : Type 0
  pub Context : Type 0
  pub Stream : Type 0

-- What the entry's `std::function` holds: a plain handler, or one of the two adapters.
pub data Callback (c : Callbacks) : Type 0 where
  plain : c.Simple → Callback c
  simple_adapter : c.Simple → RouteScheduling → Callback c
  context_adapter : c.Context → RouteScheduling → Callback c

pub record HandlerEntry (c : Callbacks) : Type 0 where
  pub handler : Callback c
  pub flags : ℕ

-- Bits 0, 1 and 2 of the flags.
module _ {c : Callbacks} where
  unfoldable pub serialized : HandlerEntry c → Bool
  serialized e = e.flags % 2 == 1

  unfoldable pub contextual : HandlerEntry c → Bool
  contextual e = e.flags / 2 % 2 == 1

  unfoldable pub advanced_options : HandlerEntry c → Bool
  advanced_options e = e.flags / 4 % 2 == 1

pub record HandlerRegistry (c : Callbacks) : Type 0 where
  pub handlers : List (Route × HandlerEntry c)
  pub handler_prefixes : List (Route × HandlerEntry c)
  pub stream_handlers : List (Route × c.Stream)
  pub stream_prefixes : List (Route × c.Stream)

-- `std::sort` by `left.first.size() > right.first.size()`. The standard leaves the order of equally
-- long keys open, so the algorithm is a parameter with its contract.
pub record Sorter : Type 1 where
  pub sort : (E : Type 0) → List (Route × E) → List (Route × E)
  pub sort_perm : (E : Type 0) (t : List (Route × E)) → Permᴰ t (sort E t)
  pub sort_sorted : (E : Type 0) (t : List (Route × E)) → LongestFirst (sort E t)

module _ {E : Type 0} where
  -- `find(route) != end()`
  unfoldable pub is_known : Route → List (Route × E) → Bool
  unfolding lookup
  is_known route table = elim (lookup route table) [ none ↦ false | some e ↦ true ]

  -- `validate_handler`
  abbrev pub present : Option E → Exception → Result E
  present none e = err e
  present (some h) e = ok h

abbrev pub bit : Bool → ℕ
bit true = 1
bit false = 0

-- `validate_route`
abbrev pub route_checks : Route → ℕ → List (Bool × Exception)
route_checks route max_message_size =
    (length route == 0, invalid_argument "route must not be empty")
    ∷ (ltb max_message_size (length route), length_error "route exceeds server max_message_size")
    ∷ []

abbrev pub no_handler : Exception
no_handler = invalid_argument "handler must not be empty"

abbrev pub is_fifo : QueuePolicy → Bool
is_fifo fifo = true
is_fifo _ = false

-- `on_serialized` refuses options that name a domain or a policy.
abbrev pub default_domain_checks : Bool → RouteScheduling → List (Bool × Exception)
default_domain_checks is_serialized scheduling =
    (
      is_serialized && (not (length scheduling.domain == 0) || not (is_fifo scheduling.policy)),
      invalid_argument
          "on_serialized uses the default FIFO domain; use on with RouteOptions::serialize_in for advanced scheduling",
    )
    ∷ []

module _ {c : Callbacks} where
  -- `make_route_options_entry`; it is called with one callback at least.
  unfoldable pub make_route_options_entry :
      Option c.Simple → Option c.Context → Bool → Bool → RouteScheduling → Option (HandlerEntry c)
  make_route_options_entry simple (some context) is_serialized advanced scheduling = some (record {
    handler = context_adapter context scheduling;
    flags = bit is_serialized + bit advanced * 4 + 2;
  })
  make_route_options_entry none none is_serialized advanced scheduling = none
  make_route_options_entry (some simple) none is_serialized true scheduling =
      some (record { handler = simple_adapter simple scheduling; flags = bit is_serialized + 4 })
  make_route_options_entry (some simple) none is_serialized false scheduling =
      some (record { handler = plain simple; flags = bit is_serialized })

  abbrev pub plain_entry : c.Simple → Bool → HandlerEntry c
  plain_entry handler is_serialized = record { handler = plain handler; flags = bit is_serialized }

module _ {c : Callbacks} where
  -- The mutation of `exact`, `exact_options` and `exact_serialized_options`.
  pub add_exact : Route → HandlerEntry c → HandlerRegistry c → Result (HandlerRegistry c)
  unfolding is_known
  add_exact route entry r = do
    checks ((is_known route r.handlers, runtime_error "route already exists") ∷ [])
    ok (record r { handlers = (route, entry) ∷ r.handlers })

  unfoldable pub exact :
      ℕ → Route → Option c.Simple → Bool → HandlerRegistry c → Result (HandlerRegistry c)
  unfolding add_exact
  exact max_message_size route handler is_serialized r = do
    checks (route_checks route max_message_size)
    h ← present handler no_handler
    add_exact route (plain_entry h is_serialized) r

  unfoldable pub exact_options :
      ℕ
      → Route
      → Option c.Simple
      → Option c.Context
      → Bool
      → Bool
      → RouteScheduling
      → HandlerRegistry c
      → Result (HandlerRegistry c)
  unfolding add_exact make_route_options_entry
  exact_options max_message_size route simple context is_serialized advanced scheduling r = do
    checks (route_checks route max_message_size)
    entry ←
        present (make_route_options_entry simple context is_serialized advanced scheduling)
          no_handler
    add_exact route entry r

  unfoldable pub exact_serialized_options :
      ℕ
      → Route
      → Option c.Simple
      → Option c.Context
      → Bool
      → RouteScheduling
      → HandlerRegistry c
      → Result (HandlerRegistry c)
  unfolding add_exact make_route_options_entry
  exact_serialized_options max_message_size route simple context is_serialized scheduling r = do
    checks (route_checks route max_message_size)
    entry ←
        present (make_route_options_entry simple context true false default_scheduling) no_handler
    checks (default_domain_checks is_serialized scheduling)
    add_exact route entry r

  -- The mutation of `stream`.
  pub add_stream : Route → c.Stream → HandlerRegistry c → Result (HandlerRegistry c)
  unfolding is_known
  add_stream route h r = do
    checks ((is_known route r.stream_handlers, runtime_error "stream route already exists") ∷ [])
    ok (record r { stream_handlers = (route, h) ∷ r.stream_handlers })

  unfoldable pub stream :
      ℕ → Route → Option c.Stream → HandlerRegistry c → Result (HandlerRegistry c)
  unfolding add_stream
  stream max_message_size route handler r = do
    checks (route_checks route max_message_size)
    h ← present handler (invalid_argument "stream handler must not be empty")
    add_stream route h r

  -- An exact match wins; otherwise the first entry of the vector that fits.
  unfoldable pub find_request_handler : HandlerRegistry c → Route → Option (HandlerEntry c)
  unfolding lookup find_prefix
  find_request_handler r route = elim (lookup route r.handlers) [
    | some e ↦ some e
    | none ↦ find_prefix route r.handler_prefixes
  ]

  unfoldable pub find_stream_handler : HandlerRegistry c → Route → Option c.Stream
  unfolding lookup find_prefix
  find_stream_handler r route = elim (lookup route r.stream_handlers) [
    | some e ↦ some e
    | none ↦ find_prefix route r.stream_prefixes
  ]

  module _ (sorter : Sorter) where
    -- The mutation of `prefix` and `prefix_options`.
    pub add_prefix : Route → HandlerEntry c → HandlerRegistry c → Result (HandlerRegistry c)
    unfolding is_known
    add_prefix route entry r = do
      checks ((is_known route r.handler_prefixes, runtime_error "prefix route already exists") ∷ [])
      ok (record r {
        handler_prefixes = sorter.sort (HandlerEntry c) (r.handler_prefixes ++ (route, entry) ∷ []);
      })

    unfoldable pub prefix :
        ℕ → Route → Option c.Simple → Bool → HandlerRegistry c → Result (HandlerRegistry c)
    unfolding add_prefix
    prefix max_message_size route handler is_serialized r = do
      checks (route_checks route max_message_size)
      h ← present handler no_handler
      add_prefix route (plain_entry h is_serialized) r

    unfoldable pub prefix_options :
        ℕ
        → Route
        → Option c.Simple
        → Option c.Context
        → Bool
        → Bool
        → RouteScheduling
        → HandlerRegistry c
        → Result (HandlerRegistry c)
    unfolding add_prefix make_route_options_entry
    prefix_options max_message_size route simple context is_serialized advanced scheduling r = do
      checks (route_checks route max_message_size)
      entry ←
          present (make_route_options_entry simple context is_serialized advanced scheduling)
            no_handler
      add_prefix route entry r

    -- The mutation of `stream_prefix`.
    pub add_stream_prefix : Route → c.Stream → HandlerRegistry c → Result (HandlerRegistry c)
    unfolding is_known
    add_stream_prefix route h r = do
      checks ((is_known route r.stream_prefixes, runtime_error "prefix route already exists") ∷ [])
      ok (record r {
        stream_prefixes = sorter.sort c.Stream (r.stream_prefixes ++ (route, h) ∷ []);
      })

    unfoldable pub stream_prefix :
        ℕ → Route → Option c.Stream → HandlerRegistry c → Result (HandlerRegistry c)
    unfolding add_stream_prefix
    stream_prefix max_message_size route handler r = do
      checks (route_checks route max_message_size)
      h ← present handler (invalid_argument "stream handler must not be empty")
      add_stream_prefix route h r
