-- ===== src/Output/Choice.antt =====
-- The response that a writer sends in place of one that no frame can carry.
use easy_uds.Prelude.{
  ℕ, ◌≡◌, ◌≤◌, ◌⊎◌, suc, refl, arith, inl, inr, Bool, true, false, ◌||◌, some, ltb, leb,
  if◌then◌else◌, length, Bool-cases,
}
use easy_uds.Options.{ServerOptions, is_negative}
use easy_uds.Protocol.{max_wire_field}
use easy_uds.Output.{
  Bytes, Response, internal_error, negative_status, too_large_body, bounded_error_body,
  error_response, resolve_response,
}

-- A response that a frame can carry.
abbrev pub Fits : ServerOptions → Response → Type 0
Fits options r =
    (is_negative r.status ≡ false)
    × (length r.body ≤ options.max_message_size)
    × (length r.body ≤ max_wire_field)

error_response-Fits :
    (options : ServerOptions) (message : Bytes)
    → length message ≤ max_wire_field
    → Fits options (error_response options message)
unfolding error_response bounded_error_body
error_response-Fits options message h =
    elim (Bool-cases (leb (length message) options.max_message_size)) [
      | inl t ↦ rw t (refl, ground arith, h)
      | inr f ↦ rw f (refl, omega arith, omega arith)
    ]

Fits-resolve_response :
    (options : ServerOptions) (r : Response) (fuel : ℕ)
    → Fits options r
    → resolve_response (suc fuel) options r ≡ some r
unfolding resolve_response
Fits-resolve_response options r fuel f = let a = f.0 in let b = f.1 in let c = f.2 in ground arith

short_either :
    (b : Bool) (x y : Bytes)
    → length x ≤ max_wire_field
    → length y ≤ max_wire_field
    → length (if b then x else y) ≤ max_wire_field
short_either true x y h k = h
short_either false x y h k = k

-- Whatever a handler answers and whatever the options are, the choice of the response ends with one
-- of a status that is not negative and a body within `max_message_size` and a header field; and a
-- response of that kind is itself the choice.
pub resolve_response-Fits :
    (options : ServerOptions) (r : Response)
    → (chosen : Response) × (resolve_response 2 options r ≡ some chosen)
      × Fits options chosen
      × ((chosen ≡ r) ⊎ (¬ Fits options r))
unfolding resolve_response
resolve_response-Fits options r = elim (Bool-cases (is_negative r.status)) [
  | inl negative ↦
      let message =
        if options.include_handler_error_messages then negative_status else internal_error in
      let f = error_response-Fits options message (
        short_either options.include_handler_error_messages negative_status internal_error
          (omega arith) (omega arith)) in
      (
        error_response options message,
        rw negative (Fits-resolve_response options _ 0 f),
        f,
        inr (λ g. let h = g.0 in cc),
      )
  | inr no_error ↦
      elim (Bool-cases
        (ltb options.max_message_size (length r.body) || ltb max_wire_field (length r.body))) [
          | inl large ↦
              let message =
                if options.include_handler_error_messages then too_large_body else internal_error in
              let f = error_response-Fits options message (
                short_either options.include_handler_error_messages too_large_body internal_error
                  (omega arith) (omega arith)) in
              (
                error_response options message,
                rw (no_error, large) (Fits-resolve_response options _ 0 f),
                f,
                inr (λ g. let a = g.1 in let b = g.2 in ground arith),
              )
          | inr small ↦ (r, rw (no_error, small), (no_error, ground arith, ground arith), inl refl)
        ]
]
