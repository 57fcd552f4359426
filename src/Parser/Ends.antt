-- ===== src/Parser/Ends.antt =====
-- The end of the parser's loop.
use easy_uds.Prelude.{ℕ, ◌≡◌, ◌<◌, zero, suc, refl, arith, [], Option, none, some, length}
use easy_uds.Options.{ServerOptions}
use easy_uds.Output.{Bytes}
use easy_uds.Frames.{Host, Parser, goes_on, starved, stopped, throws, Round}
use easy_uds.Parser.{next_round, round_in, parse, parse_pending}
use easy_uds.Parser.Ready.{IsReading, Progresses}
use easy_uds.Parser.Steps.{round_in-Progresses}

module _ {W : Type 0} (host : Host W) (options : ServerOptions) where
  -- The loop ended, and where it is out of bytes it left none and is ready for more.
  abbrev pub Ended : Option (Round W) → Type 0
  Ended none = ⊥
  Ended (some (goes_on next, rest)) = ⊥
  Ended (some (starved next, rest)) = IsReading next × (rest ≡ [])
  Ended (some (stopped next, rest)) = Unit {0}
  Ended (some (throws e next, rest)) = Unit {0}

  next_round-Ended :
      (pending : Bytes) (r : Round W) (further : Bytes → Parser W → Option (Round W))
      → Progresses pending r.0 r.1
      → ((rest : Bytes) (next : Parser W)
          → length rest < length pending
          → IsReading next
          → Ended (further rest next))
      → Ended (next_round r further)
  next_round-Ended pending (goes_on next, rest) further p k = k rest next p.1 p.0
  next_round-Ended pending (starved next, rest) further p k = p
  next_round-Ended pending (stopped next, rest) further p k = tt
  next_round-Ended pending (throws e next, rest) further p k = tt

  pub parse-Ended :
      (fuel now : ℕ) (pending : Bytes) (s : Parser W)
      → length pending < fuel
      → IsReading s
      → Ended (parse host options fuel now pending s)
  unfolding parse
  parse-Ended zero now pending s h w = absurd (omega arith)
  parse-Ended (suc fuel) now pending s h w =
      next_round-Ended pending (round_in host options s.phase now pending s)
        (λ rest next. parse host options fuel now rest next)
        (round_in-Progresses host options s.phase now pending s refl w)
        (λ rest next shorter r. parse-Ended fuel now rest next (omega arith) r)

  next_round_same :
      (pending : Bytes) (r : Round W) (f g : Bytes → Parser W → Option (Round W))
      → Progresses pending r.0 r.1
      → ((rest : Bytes) (next : Parser W)
          → length rest < length pending
          → IsReading next
          → f rest next ≡ g rest next)
      → next_round r f ≡ next_round r g
  next_round_same pending (goes_on next, rest) f g p k = k rest next p.1 p.0
  next_round_same pending (starved next, rest) f g p k = refl
  next_round_same pending (stopped next, rest) f g p k = refl
  next_round_same pending (throws e next, rest) f g p k = refl

  pub parse-fuel :
      (fuel fuel' now : ℕ) (pending : Bytes) (s : Parser W)
      → length pending < fuel
      → length pending < fuel'
      → IsReading s
      → parse host options fuel now pending s ≡ parse host options fuel' now pending s
  unfolding parse
  parse-fuel zero fuel' now pending s h k w = absurd (omega arith)
  parse-fuel (suc fuel) zero now pending s h k w = absurd (omega arith)
  parse-fuel (suc fuel) (suc fuel') now pending s h k w =
      next_round_same pending (round_in host options s.phase now pending s)
        (λ rest next. parse host options fuel now rest next)
        (λ rest next. parse host options fuel' now rest next)
        (round_in-Progresses host options s.phase now pending s refl w)
        (λ rest next shorter r. parse-fuel fuel fuel' now rest next (omega arith) (omega arith) r)

  -- The parser ends on whatever is pending. When it returns for want of bytes it has used up all of
  -- them, and waits inside a header, a payload or a route that is not whole.
  pub parse_pending-Ended :
      (now : ℕ) (pending : Bytes) (s : Parser W)
      → IsReading s
      → Ended (parse_pending host options now pending s)
  unfolding parse_pending
  parse_pending-Ended now pending s w =
      parse-Ended (suc (length pending)) now pending s (omega arith) w
