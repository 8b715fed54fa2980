-- ===== src/Raft/State/Wait.antt =====
-- raft_wait_committed of raft_state.c. Its loop polls the commit index every 10 ms; the polls are a
-- list of what it sees: the commit index and the time. A timeout of 0 or less is 0 here.
use e_roole.Prelude.{
  ℕ, ◌+◌, ◌-◌, ◌%◌, ◌^◌, ◌<◌, ◌≢◌, ◌&&◌, List, [], ◌∷◌, ltb, leb, if◌then◌else◌, arith, All,
}

pub data WaitResult : Type 0 where
  committed timed_out still_waiting : WaitResult

-- `time_now_ms() - start` wraps.
unfoldable pub wait_committed : ℕ → ℕ → ℕ → List (ℕ × ℕ) → WaitResult
wait_committed index timeout start [] = still_waiting
wait_committed index timeout start ((commit, now) ∷ polls) =
    let rest = wait_committed index timeout start polls in
    if leb index commit
    then committed
    else if ltb 0 timeout && ltb timeout ((now + 2 ^ 64 - start) % 2 ^ 64)
    then timed_out
    else rest

-- If no poll sees the commit index at `index`, the wait does not report a commit.
pub wait_committed-below :
    (index timeout start : ℕ) (polls : List (ℕ × ℕ))
    → All (λ p. p.0 < index) polls
    → wait_committed index timeout start polls ≢ committed
unfolding wait_committed
wait_committed-below index timeout start [] h = λ e. cc
wait_committed-below index timeout start ((c, now) ∷ polls) h =
    ground (arith, wait_committed-below index timeout start polls)
