-- ===== src/Session/Steps.antt =====
-- A session under every interleaving of its callers and its reader.
use easy_uds.Prelude.{ℕ, ◌≡◌, ◌⊎◌, Bool, List, [], ◌∷◌, ◌++◌, Exception}
use easy_uds.Output.{Response}
use easy_uds.Session.{
  Session, reading, failing, new_session, fetch_id, try_register, break_session, caller_moves,
  leave, fail_reader, deliver, fail_shard,
}

-- The responses that came over the connection, the last one first.
abbrev pub Heard : Type 0
Heard = List (ℕ × Response)

abbrev pub Said : Heard → ℕ → Response → Type 0
Said [] id r = ⊥
Said (x ∷ xs) id r = (x ≡ (id, r)) ⊎ Said xs id r

-- One section of some thread, and the response that it took off the connection. A caller may
-- register any id that it fetched, and set `broken` and leave whenever it does.
pub data Step (s : Session) : Heard → Session → Type 0 where
  fetches : Step s [] (fetch_id s).1
  registers : (id : ℕ) → Step s [] (try_register id s).1
  moves :
      (id : ℕ) (written cancel expired : Bool)
      → Step s [] (caller_moves id written cancel expired s)
  breaks : Step s [] (break_session s)
  leaves : (id : ℕ) → Step s [] (leave id s)
  delivers : (id : ℕ) (r : Response) → s.reader ≡ reading → Step s ((id, r) ∷ []) (deliver id r s)
  reader_fails : (e : Exception) → s.reader ≡ reading → Step s [] (fail_reader e s)
  sweeps :
      (e : Exception) (shard : ℕ) → s.reader ≡ failing e shard → Step s [] (fail_shard e shard s)

pub data Reaches : Heard → Session → Type 0 where
  start : Reaches [] new_session
  step :
      (heard more : Heard) (s t : Session)
      → Reaches heard s
      → Step s more t
      → Reaches (more ++ heard) t
