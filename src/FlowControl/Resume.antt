-- ===== src/FlowControl/Resume.antt =====
-- Which connections a release resumes.
use easy_uds.Prelude.{ℕ, ◌≡◌, ◌≢◌, ◌≤◌, ◌/◌, ◌⊎◌, arith, true, false, List, [], ◌∷◌, ◌++◌}
use easy_uds.Options.{ServerOptions}
use easy_uds.Options.Laws.{IsValid}
use easy_uds.FlowControl.{
  Inflight, Peer, Flow, below_resume_watermark, above_pause_watermark, resumed_keys, fetch_sub,
  update, sub_request,
}

-- With checked options a connection is never both above the pause watermark and below the resume
-- watermark, so a pause is not undone by the release that follows at once.
pub watermarks-Disjoint :
    (options : ServerOptions) (total : ℕ) (inflight : Inflight)
    → IsValid options
    → above_pause_watermark options total inflight ≡ true
    → below_resume_watermark options total inflight ≡ false
unfolding above_pause_watermark below_resume_watermark
watermarks-Disjoint options total inflight v h = ground arith

-- A connection that the release of connection `k` is to resume: it is in the map, it is `k` or there
-- is a global budget, its reads are paused, it does not close, and no counter is above half its limit.
abbrev pub IsReady : ServerOptions → ℕ → ℕ → Peer → Type 0
IsReady options k total p =
    (p.registered ≡ true)
    × ((options.max_total_inflight_bytes ≢ 0) ⊎ (p.key ≡ k))
    × (p.read_paused ≡ true)
    × (p.closing ≡ false)
    × ((options.max_total_inflight_bytes ≡ 0) ⊎ (total ≤ options.max_total_inflight_bytes / 2))
    × (p.inflight.inflight_requests ≤ options.max_inflight_requests_per_connection / 2)
    × (p.inflight.inflight_request_bytes ≤ options.max_inflight_request_bytes_per_connection / 2)

-- The connections before and after, and the keys of those that were resumed: just the ready ones
-- read again, and nothing else changed.
abbrev pub Resumes : ServerOptions → ℕ → ℕ → List Peer → List Peer → List ℕ → Type 0
Resumes options k total [] qs keys = (qs ≡ []) × (keys ≡ [])
Resumes options k total (p ∷ ps) qs keys =
    (later : List Peer) × ((IsReady options k total p
        × (qs ≡ record p { read_paused = false } ∷ later)
        × ((others : List ℕ) × (keys ≡ p.key ∷ others) × Resumes options k total ps later others))
      ⊎ ((¬ IsReady options k total p) × (qs ≡ p ∷ later) × Resumes options k total ps later keys))

-- Nothing was resumed and nothing changed, or the reactor will run: a wakeup is pending, where there
-- is a descriptor for it.
abbrev pub IsWoken : List ℕ → Flow → Flow → Type 0
IsWoken keys s t =
    ((keys ≡ []) × (t ≡ s)) ⊎ ((keys ≢ []) × ((t.has_wakeup_fd ≡ false) ⊎ (t.wake_pending ≡ true)))

abbrev pub Served : ServerOptions → ℕ → Flow → Flow → Type 0
Served options k s t =
    (keys : List ℕ) × Resumes options k s.total_inflight_request_bytes s.peers t.peers keys
    × (t.resumed_connections ≡ s.resumed_connections ++ keys)
    × IsWoken keys s t

module _ (options : ServerOptions) (k : ℕ) (s : Flow) where
  abbrev keys : List ℕ
  keys = resumed_keys options k s.total_inflight_request_bytes s.peers

-- The state of a release before it resumes anything: both counters moved.
abbrev pub moved : ℕ → ℕ → Flow → Flow
moved k n s = record s {
  total_inflight_request_bytes = fetch_sub s.total_inflight_request_bytes n;
  peers = update k (sub_request n) s.peers;
}
