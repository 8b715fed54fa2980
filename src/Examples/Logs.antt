-- ===== src/Examples/Logs.antt =====
-- Logs, the commit index and the apply thread.
use e_roole.Prelude.{
  ℕ, ◌+◌, ◌%◌, ◌^◌, ◌≤◌, ◌<◌, ◌≡◌, ◌⊎◌, refl, true, false, List, [], ◌∷◌, length, some, arith,
}
use e_roole.Raft.Types.{Entry}
use e_roole.Raft.State.{submit_command, get_last_log_index}
use e_roole.Raft.State.Apply.{apply_committed}
use e_roole.Raft.State.Apply.Exact.{outstanding, apply_all, apply_committed-apply_all}
use e_roole.Raft.State.Local.{submit_command-uncommitted, here, next, beats}
use e_roole.Raft.State.Replication.{heartbeat_round}
use e_roole.Raft.Handlers.{append_entries, min_of}
use e_roole.Raft.Handlers.Commit.{append_entries-commit}
use e_roole.Examples.Data.{node, leading, contains, append, two_entries, quiet}

-- A state machine that keeps the indices of the entries it was given.
abbrev record_index : Entry → List ℕ → List ℕ
record_index e seen = e.index ∷ seen

apply_committed-apply_all_example :
    let (s', d') = apply_committed (some record_index) (node, []) in
    (d' ≡ apply_all record_index (outstanding node) [])
    × (s'.volatile_state.last_applied ≡ 0 + length (outstanding node))
    × (s'.persistent ≡ node.persistent)
    × (s'.volatile_state.commit_index ≡ 1)
apply_committed-apply_all_example = apply_committed-apply_all record_index node []

submit_command-uncommitted_example :
    (heartbeat_round
      (submit_command leading (9 ∷ []) 1300).1
      (λ i. quiet)).volatile_state.commit_index
    < 3
unfolding submit_command get_last_log_index
submit_command-uncommitted_example =
    submit_command-uncommitted (some record_index) leading
      (heartbeat_round (submit_command leading (9 ∷ []) 1300).1 (λ i. quiet)) (9 ∷ []) 1300 3 5
      (omega arith) (omega arith) refl (next here (beats (λ i. quiet) (λ j req r. refl)))

append_entries-commit_example :
    let (resp, s') = append_entries contains append node two_entries 1100 4 in
    ((5 < 5) × (resp ≡ record { term = 5; success = false; match_index = 0 }) × (s' ≡ node))
    ⊎ ((5 ≤ 5)
        × (resp.term ≡ 5)
        × (resp.success ≡ true)
        × (s'.volatile_state.current_leader ≡ 2)
        × (((true ≡ false)
              × (resp.match_index ≡ 0)
              × (s'.persistent ≡ node.persistent)
              × (s'.volatile_state.commit_index ≡ 1))
            ⊎ ((true ≡ true)
                × (resp.match_index ≡ (2 + 2) % 2 ^ 64)
                × (s'.persistent ≡ append node.persistent two_entries.entries 2)
                × (((3 ≤ 1) × (s'.volatile_state.commit_index ≡ 1))
                    ⊎ ((1 < 3) × (s'.volatile_state.commit_index ≡ min_of 3 resp.match_index))))))
append_entries-commit_example = append_entries-commit contains append node two_entries 1100 4
