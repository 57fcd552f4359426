-- ===== src/Protocol/Lengths.antt =====
-- The length check of a request.
use easy_uds.Prelude.{ℕ, ◌+◌, ◌≤◌, ◌<◌, ◌≡◌, ◌↔◌, ok, arith, checks-pass}
use easy_uds.Protocol.{validate_request_lengths, length_checks, max_wire_field}

-- A request passes the length check exactly when its route is not empty, route and body together
-- fit `max_message_size`, and each fits a header field.
pub validate_request_lengths_iff :
    (route body limit : ℕ)
    → (validate_request_lengths route body limit ≡ ok tt)
      ↔ ((0 < route) × (route + body ≤ limit) × (route ≤ max_wire_field) × (body ≤ max_wire_field))
unfolding validate_request_lengths
validate_request_lengths_iff route body limit = (
  (λ h. let pass = checks-pass (length_checks route body limit) h in ground arith),
  (λ h. ground arith),
)
