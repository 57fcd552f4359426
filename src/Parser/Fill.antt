-- ===== src/Parser/Fill.antt =====
-- The copies of the parser, on bytes that come in two parts.
use easy_uds.Prelude.{
  ℕ, ◌+◌, ◌-◌, ◌≡◌, ◌≤◌, ◌<◌, refl, sym, ◌∙◌, ap, arith, inl, inr, true, not, ◌&&◌, [], ◌∷◌, ◌++◌,
  ◌==◌, length, length-append, drop, take, min, Bool-cases,
}
use mathlib.Core.Path.{ap₂}
use easy_uds.Options.{ServerOptions}
use easy_uds.Protocol.{HeaderBytes, header_size}
use easy_uds.Routes.{Route}
use easy_uds.Output.{Bytes}
use easy_uds.Frames.{Parser, start_clock}
use easy_uds.Parser.{header_need, payload_need, route_need, header_fill, payload_fill}
use easy_uds.Parser.Buffers.{
  take-append_lt, take-append_ge, take-all, take-again, take-take, take-drop, route-again,
  body-again,
}

start_clock-longer :
    (options : ServerOptions) (now : ℕ) (p q : Bytes) (clock : ℕ × ℕ)
    → 0 < length p
    → start_clock options now (p ++ q) clock ≡ start_clock options now p clock
unfolding start_clock
start_clock-longer options now [] q clock h = absurd (omega arith)
start_clock-longer options now (x ∷ p) q (arrival, deadline) h =
    let started : (not (length (x ∷ p) == 0)) ≡ true = ground arith in
    let started' : (not (length (x ∷ p ++ q) == 0)) ≡ true = ground arith in
    rw (started, started') refl

start_clock-append :
    (options : ServerOptions) (now : ℕ) (p q : Bytes) (clock : ℕ × ℕ)
    → start_clock options now (p ++ q) clock
      ≡ start_clock options now q (start_clock options now p clock)
unfolding start_clock
start_clock-append options now [] q clock = refl
start_clock-append options now (x ∷ p) q (arrival, deadline) =
    let started : (not (length (x ∷ p) == 0)) ≡ true = ground arith in
    let started' : (not (length (x ∷ p ++ q) == 0)) ≡ true = ground arith in
    elim (Bool-cases (arrival == 0)) [
      | inl first ↦ elim (Bool-cases (not (length q == 0) && (now == 0))) [
        | inl again ↦ rw (started, started', first, again) refl
        | inr once ↦ rw (started, started', first, once) refl
      ]
      | inr later ↦ elim (Bool-cases (not (length q == 0))) [
        | inl again ↦ rw (started, started', later, again, later) refl
        | inr once ↦ rw (started, started', later, once) refl
      ]
    ]

module _ {W : Type 0} (options : ServerOptions) (now : ℕ) (q : Bytes) where
  pub header_fill-again :
      (p : Bytes) (s : Parser W)
      → length p ≤ header_need s
      → header_fill options now (p ++ q) s ≡ header_fill options now q (header_fill options now p s)
  unfolding header_fill
  header_fill-again p s h =
      ap₂
        (λ (b : HeaderBytes) (c : ℕ × ℕ). record s {
          header_bytes = b;
          arrival_time = c.0;
          deadline = c.1;
        })
        (take-again header_size s.header_bytes p q h)
        (start_clock-append options now p q (s.arrival_time, s.deadline))

  pub header_fill-longer :
      (p : Bytes) (s : Parser W)
      → 0 < length p
      → header_need s ≤ length p
      → header_fill options now (p ++ q) s ≡ header_fill options now p s
  unfolding header_fill
  header_fill-longer p s positive h =
      ap₂
        (λ (b : HeaderBytes) (c : ℕ × ℕ). record s {
          header_bytes = s.header_bytes ++ b;
          arrival_time = c.0;
          deadline = c.1;
        })
        (take-append_lt (header_need s) p q h)
        (start_clock-longer options now p q (s.arrival_time, s.deadline) positive)

  abbrev payload_state : Parser W → Route → Bytes → ℕ → Parser W
  payload_state s route body received = record s {
    route_buffer = route;
    body_buffer = body;
    payload_received = received;
  }

  same_state :
      (s : Parser W) {route route' : Route} {body body' : Bytes} {n n' : ℕ}
      → route ≡ route'
      → body ≡ body'
      → n ≡ n'
      → payload_state s route body n ≡ payload_state s route' body' n'
  same_state s e f g = rw (e, f, g) refl

  payload_fill-split :
      (p : Bytes) (s : Parser W)
      → payload_fill p s
        ≡ payload_state s
            (s.route_buffer ++ take (route_need s) (take (min (length p) (payload_need s)) p))
            (s.body_buffer ++ drop (route_need s) (take (min (length p) (payload_need s)) p))
            (s.payload_received + min (length p) (payload_need s))
  unfolding payload_fill
  payload_fill-split p s =
      let k = min (length p) (payload_need s) in
      rw (take-take k (route_need s) p, take-drop k (route_need s) p) refl

  pub payload_fill-longer :
      (p : Bytes) (s : Parser W)
      → payload_need s ≤ length p
      → payload_fill (p ++ q) s ≡ payload_fill p s
  payload_fill-longer p s h =
      let sum = length-append p q in
      let need = payload_need s in
      let taken : min (length (p ++ q)) need ≡ need = omega arith in
      let taken' : min (length p) need ≡ need = omega arith in
      let first = take-append_lt need p q h in
      payload_fill-split (p ++ q) s ∙ rw (taken, taken', first) refl ∙ sym (payload_fill-split p s)

  pub payload_fill-again :
      (p : Bytes) (s : Parser W)
      → length p ≤ payload_need s
      → payload_fill (p ++ q) s ≡ payload_fill q (payload_fill p s)
  payload_fill-again p s h =
      let n = route_need s in
      let k = min (length q) (payload_need s - length p) in
      let ys = take k q in
      let sum = length-append p q in
      let t =
        payload_state s (s.route_buffer ++ take n p) (s.body_buffer ++ drop n p)
          (s.payload_received + length p) in
      let both : min (length (p ++ q)) (payload_need s) ≡ length p + k = omega arith in
      let later : length p + k - length p ≡ k = omega arith in
      let taken = take-append_ge (length p + k) p q (omega arith) ∙ ap (λ i. p ++ take i q) later in
      let first : min (length p) (payload_need s) ≡ length p = omega arith in
      let here : payload_fill p s ≡ t =
        payload_fill-split p s ∙ rw (first, take-all (length p) p (omega arith)) refl in
      let second : min (length q) (payload_need t) ≡ k = omega arith in
      let there : payload_fill q t
          ≡ payload_state t (t.route_buffer ++ take (route_need t) ys)
              (t.body_buffer ++ drop (route_need t) ys) (t.payload_received + k) =
        payload_fill-split q t ∙ rw second refl in
      payload_fill-split (p ++ q) s
      ∙ rw (both, taken)
          (same_state s (route-again s.arg1 s.route_buffer s.body_buffer p ys)
            (body-again s.arg1 s.route_buffer s.body_buffer p ys) (omega arith))
      ∙ sym there
      ∙ ap (λ (x : Parser W). payload_fill q x) (sym here)
