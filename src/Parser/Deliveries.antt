-- ===== src/Parser/Deliveries.antt =====
-- The parser on bytes that come in several deliveries, against all of them at once.
use easy_uds.Prelude.{
  ℕ, ◌≡◌, ◌<◌, zero, suc, refl, sym, ◌∙◌, ap, subst, arith, List, [], ◌∷◌, ◌++◌, Option, none, some,
  length, length-append, inl, inr, Bool, true, false, Result, ok, err,
}
use easy_uds.Options.{ServerOptions}
use easy_uds.Output.{Bytes}
use easy_uds.Output.Stream.{append-nil}
use easy_uds.Frames.{Host, Parser, Verdict, goes_on, starved, stopped, throws, Round}
use easy_uds.Parser.{next_round, stream_dispatched, stream_frame, round_in, parse, parse_pending}
use easy_uds.Parser.Ready.{IsReading, Progresses}
use easy_uds.Parser.Ends.{Ended, parse-fuel, parse_pending-Ended}
use easy_uds.Parser.Steps.{round_in-Progresses}
use easy_uds.Parser.Chunks.{Ends, Extends, round_in-Extends}

module _ {W : Type 0} (host : Host W) (options : ServerOptions) (now : ℕ) where
  -- A round that ended the loop with a return or an exception, other than for want of bytes.
  abbrev IsEnd : Verdict W → Type 0
  IsEnd (stopped s) = Unit {0}
  IsEnd (throws e s) = Unit {0}
  IsEnd _ = ⊥

  abbrev pub IsEndRun : Option (Round W) → Type 0
  IsEndRun none = ⊥
  IsEndRun (some r) = IsEnd r.0

  -- An end of the loop, and the end on more bytes.
  abbrev pub RunEnds : Bytes → Round W → Option (Round W) → Type 0
  RunEnds q x o = (r : Round W) × (o ≡ some r) × Ends host options now q x r

  stream_dispatched-IsEnd :
      (t : Parser W) (later : Bytes) (a : Result Bool × W) → IsEnd (stream_dispatched t later a).0
  stream_dispatched-IsEnd t later (ok true, w) = tt
  stream_dispatched-IsEnd t later (ok false, w) = tt
  stream_dispatched-IsEnd t later (err e, w) = tt

  Ends-IsEnd : (q : Bytes) (x r : Round W) → IsEnd x.0 → Ends host options now q x r → IsEnd r.0
  Ends-IsEnd q x r h (inl e) = subst (λ (y : Round W). IsEnd y.0) (sym e) h
  Ends-IsEnd q x r h (inr (t, later, ph, full, e, e')) =
      subst (λ (y : Round W). IsEnd y.0) (sym e')
        (stream_dispatched-IsEnd t (later ++ q)
          (host.hand_over_stream (stream_frame t (later ++ q)) t.world))

  pub RunEnds-IsEndRun :
      (q : Bytes) (x : Round W) (o : Option (Round W)) → IsEnd x.0 → RunEnds q x o → IsEndRun o
  RunEnds-IsEndRun q x o h (r, e, ends) = subst IsEndRun (sym e) (Ends-IsEnd q x r h ends)

  -- What the parser comes to on `p` and then `q`, where it came to the first on `p`.
  abbrev pub RunExtends : Bytes → Option (Round W) → Option (Round W) → Type 0
  RunExtends q (some (starved next, rest)) o = o ≡ parse_pending host options now (rest ++ q) next
  RunExtends q (some (throws e next, rest)) o = RunEnds q (throws e next, rest) o
  RunExtends q (some (stopped next, rest)) o = RunEnds q (stopped next, rest) o
  RunExtends q _ o = ⊥

  next_round-end :
      (r : Round W) (further : Bytes → Parser W → Option (Round W))
      → IsEnd r.0
      → next_round r further ≡ some r
  next_round-end (stopped s, rest) further h = refl
  next_round-end (throws e s, rest) further h = refl
  next_round-end (goes_on s, rest) further h = absurd h
  next_round-end (starved s, rest) further h = absurd h

  next_round-RunExtends :
      (p q : Bytes) (r r' : Round W) (f g : Bytes → Parser W → Option (Round W))
      → Progresses p r.0 r.1
      → Extends host options now q r r'
      → ((rest : Bytes) (next : Parser W)
          → length rest < length p
          → IsReading next
          → RunExtends q (f rest next) (g (rest ++ q) next))
      → ((next : Parser W)
          → IsReading next
          → next_round (round_in host options next.phase now q next) g
            ≡ parse_pending host options now q next)
      → RunExtends q (next_round r f) (next_round r' g)
  next_round-RunExtends p q (goes_on next, rest) r' f g pr e again start =
      subst (λ x. RunExtends q (f rest next) (next_round x g)) (sym e) (again rest next pr.1 pr.0)
  next_round-RunExtends p q (starved next, rest) r' f g pr e again start =
      ap (λ x. next_round x g) e
      ∙ start next pr.0
      ∙ ap (λ (b : Bytes). parse_pending host options now (b ++ q) next) (sym pr.1)
  next_round-RunExtends p q (throws x next, rest) r' f g pr e again start =
      (r', next_round-end r' g (Ends-IsEnd q (throws x next, rest) r' tt e), e)
  next_round-RunExtends p q (stopped next, rest) r' f g pr e again start =
      (r', next_round-end r' g (Ends-IsEnd q (stopped next, rest) r' tt e), e)

  pub parse-RunExtends :
      (fuel : ℕ) (p q : Bytes) (s : Parser W)
      → length p < fuel
      → IsReading s
      → RunExtends q (parse host options fuel now p s) (parse_pending host options now (p ++ q) s)
  unfolding parse parse_pending
  parse-RunExtends zero p q s h w = absurd (omega arith)
  parse-RunExtends (suc fuel) p q s h w =
      let sum = length-append p q in
      next_round-RunExtends p q (round_in host options s.phase now p s)
        (round_in host options s.phase now (p ++ q) s)
        (λ rest next. parse host options fuel now rest next)
        (λ rest next. parse host options (length (p ++ q)) now rest next)
        (round_in-Progresses host options s.phase now p s refl w)
        (round_in-Extends host options now q s.phase p s refl w)
        (λ rest next shorter r.
          let sum' = length-append rest q in
          subst (λ o. RunExtends q (parse host options fuel now rest next) o)
            (parse-fuel host options (suc (length (rest ++ q))) (length (p ++ q)) now (rest ++ q)
              next (omega arith) (omega arith) r)
            (parse-RunExtends fuel rest q next (omega arith) r))
        (λ next r.
          parse-fuel host options (suc (length (p ++ q))) (suc (length q)) now q next (omega arith)
            (omega arith) r)

  first_part :
      (p q : Bytes) (s : Parser W)
      → IsReading s
      → RunExtends q
          (parse_pending host options now p s)
          (parse_pending host options now (p ++ q) s)
  unfolding parse_pending
  first_part p q s w = parse-RunExtends (suc (length p)) p q s (omega arith) w

  -- What the deliveries come to one after the other.
  abbrev pub next_delivery :
      Option (Round W) → (Bytes → Parser W → Option (Round W)) → Option (Round W)
  next_delivery (some (starved next, rest)) further = further rest next
  next_delivery o further = o

  abbrev pub deliver : Bytes → List Bytes → Parser W → Option (Round W)
  deliver first [] s = parse_pending host options now first s
  deliver first (next ∷ later) s =
      next_delivery (parse_pending host options now first s)
        (λ rest t. deliver (rest ++ next) later t)

  abbrev pub joined : Bytes → List Bytes → Bytes
  joined first [] = first
  joined first (next ∷ later) = first ++ joined next later

  -- The same end, where the other run had more bytes once the first returned or threw.
  abbrev pub SameEnd : Option (Round W) → Option (Round W) → Type 0
  SameEnd (some (starved next, rest)) o = o ≡ some (starved next, rest)
  SameEnd (some (throws e next, rest)) o = (q : Bytes) × RunEnds q (throws e next, rest) o
  SameEnd (some (stopped next, rest)) o = (q : Bytes) × RunEnds q (stopped next, rest) o
  SameEnd _ o = ⊥

  SameEnd-refl : (o : Option (Round W)) → Ended host options o → SameEnd o o
  SameEnd-refl none e = absurd e
  SameEnd-refl (some (goes_on s, rest)) e = absurd e
  SameEnd-refl (some (starved s, rest)) e = refl
  SameEnd-refl (some (throws x s, rest)) e =
      ([], ((throws x s, rest), refl, inl (ap (λ b. (throws x s, b)) (sym (append-nil rest)))))
  SameEnd-refl (some (stopped s, rest)) e =
      ([], ((stopped s, rest), refl, inl (ap (λ b. (stopped s, b)) (sym (append-nil rest)))))

  next_delivery-SameEnd :
      (q : Bytes) (o o' : Option (Round W)) (further : Bytes → Parser W → Option (Round W))
      → Ended host options o
      → RunExtends q o o'
      → ((next : Parser W)
          → IsReading next
          → SameEnd (further [] next) (parse_pending host options now q next))
      → SameEnd (next_delivery o further) o'
  next_delivery-SameEnd q none o' further e r k = absurd e
  next_delivery-SameEnd q (some (goes_on s, rest)) o' further e r k = absurd e
  next_delivery-SameEnd q (some (throws x s, rest)) o' further e r k = (q, r)
  next_delivery-SameEnd q (some (stopped s, rest)) o' further e r k = (q, r)
  next_delivery-SameEnd q (some (starved s, rest)) o' further (w, none_left) r k =
      rw (r, none_left) (k s w)

  -- How the bytes of a connection are cut into deliveries does not matter, if the clock stands still:
  -- the parser comes to the same end on the deliveries, one after the other, as on all of their bytes
  -- at once. If it returns for want of bytes, it is in the same state. If it throws or returns
  -- otherwise, it does so with the same exception and state, with more bytes left over at most; or both
  -- runs handed over the same stream in the same state, and only the bytes that had come by then
  -- and go with the stream differ.
  pub deliver-SameEnd :
      (first : Bytes) (later : List Bytes) (s : Parser W)
      → IsReading s
      → SameEnd (deliver first later s) (parse_pending host options now (joined first later) s)
  deliver-SameEnd first [] s w = SameEnd-refl _ (parse_pending-Ended host options now first s w)
  deliver-SameEnd first (next ∷ later) s w =
      next_delivery-SameEnd (joined next later) (parse_pending host options now first s) _
        (λ rest t. deliver (rest ++ next) later t) (parse_pending-Ended host options now first s w)
        (first_part first (joined next later) s w) (λ t r. deliver-SameEnd next later t r)
