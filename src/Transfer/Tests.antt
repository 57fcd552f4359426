-- ===== src/Transfer/Tests.antt =====
-- Writes to a socket that takes two bytes, then is interrupted, then takes the rest.
use easy_uds.Prelude.{ℕ, ◌≡◌, arith, List, [], ◌∷◌}
use easy_uds.Deadlines.{max_time}
use easy_uds.Output.{Bytes, gathered}
use easy_uds.Transfer.{
  Reply, moved, interrupted, done, write_exact, write_iovecs_exact, write_iovecs_exact_with_fd,
}
use easy_uds.Transfer.Write.{Transfers, write_iovecs_exact_with_fd-Transfers}
use easy_uds.Transfer.Plain.{write_exact-write_iovecs_exact}
use easy_uds.Transfer.Termination.{write_iovecs_exact-done}

abbrev steady : ℕ → ℕ
steady left = 5

abbrev three_parts : List Bytes
three_parts = (1 ∷ 2 ∷ 3 ∷ []) ∷ [] ∷ (4 ∷ []) ∷ []

abbrev replies : List Reply
replies = moved 2 ∷ interrupted ∷ moved 1 ∷ moved 9 ∷ moved 1 ∷ []

write_iovecs_exact_with_fd-Transfers_example :
    Transfers 1 (gathered three_parts) (write_iovecs_exact_with_fd steady 9 replies three_parts)
write_iovecs_exact_with_fd-Transfers_example =
    write_iovecs_exact_with_fd-Transfers steady 9 replies three_parts

write_iovecs_exact-done_example :
    ((write_iovecs_exact steady max_time replies three_parts).status ≡ done)
    × ((write_iovecs_exact steady max_time replies three_parts).sent ≡ gathered three_parts)
write_iovecs_exact-done_example =
    write_iovecs_exact-done steady replies three_parts tt (omega arith)

write_exact-write_iovecs_exact_example :
    write_exact steady 9 replies (1 ∷ 2 ∷ 3 ∷ [])
    ≡ write_iovecs_exact steady 9 replies ((1 ∷ 2 ∷ 3 ∷ []) ∷ [])
write_exact-write_iovecs_exact_example =
    write_exact-write_iovecs_exact steady 9 replies (1 ∷ 2 ∷ 3 ∷ [])
