-- ===== src/Reads/Tests.antt =====
-- Reads from a socket that is interrupted, and brings more than is asked for.
use easy_uds.Prelude.{ℕ, ◌≡◌, refl, arith, List, [], ◌∷◌, some}
use easy_uds.Deadlines.{max_time}
use easy_uds.Reads.{
  Arrival, bytes_came, call_interrupted, wait_returned, complete, read, read_source,
}
use easy_uds.Reads.Receive.{flat}
use easy_uds.Reads.Whole.{Obtained, Delivered, read-Obtained, read-Delivered}

abbrev steady : ℕ → ℕ
steady left = 5

abbrev arrivals : List Arrival
arrivals =
    wait_returned ∷ bytes_came (3 ∷ 4 ∷ []) ∷ call_interrupted ∷ bytes_came (5 ∷ 6 ∷ 7 ∷ []) ∷ []

read_ahead :
    read steady 9 5 (1 ∷ 2 ∷ []) arrivals
    ≡ some (record {
      reading = complete;
      bytes = 1 ∷ 2 ∷ 3 ∷ 4 ∷ 5 ∷ [];
      buffer = 6 ∷ 7 ∷ [];
      rest = [];
    })
unfolding read
read_ahead = refl

read-Obtained_example :
    Obtained 5 (1 ∷ 2 ∷ flat arrivals) (read steady 9 5 (1 ∷ 2 ∷ []) arrivals)
    × Obtained 5 (1 ∷ 2 ∷ flat arrivals) (read_source steady 9 5 (1 ∷ 2 ∷ []) arrivals)
read-Obtained_example = read-Obtained steady 9 5 (1 ∷ 2 ∷ []) arrivals

read-Delivered_example :
    Delivered 5 (1 ∷ 2 ∷ flat arrivals) (read steady max_time 5 (1 ∷ 2 ∷ []) arrivals)
    × Delivered 5 (1 ∷ 2 ∷ flat arrivals) (read_source steady max_time 5 (1 ∷ 2 ∷ []) arrivals)
read-Delivered_example = read-Delivered steady 5 (1 ∷ 2 ∷ []) arrivals tt (omega arith)
