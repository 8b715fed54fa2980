-- ===== src/Raft/State/Apply.antt =====
-- The apply thread of raft_state.c, over any state machine `D`.
pub mod Exact
use e_roole.Prelude.{
  ℕ, zero, suc, ◌+◌, ◌-◌, List, Option, none, some, length, get_elem?, ltb, if◌then◌else◌,
}
use e_roole.Raft.Types.{Entry}
use e_roole.Raft.State.{Raft, tick}

module _ {ℓ} {D : Type ℓ} (on_apply : Option (Entry → D → D)) where
  -- The callback on one entry, and the count of what was applied, where there is a callback.
  unfoldable pub apply_entry : Entry → Raft × D → Raft × D
  apply_entry e (s, d) = elim on_apply [
    | none ↦ (s, d)
    | some f ↦ (
      record s { stats = record (s.stats) { commands_applied = tick s.stats.commands_applied } },
      f e d,
    )
  ]

  unfoldable pub set_last_applied : ℕ → Raft × D → Raft × D
  set_last_applied i (s, d) =
      (record s { volatile_state = record (s.volatile_state) { last_applied = i } }, d)

  -- The loop from index `i` with `n` rounds left; it breaks where `i > log_count`.
  unfoldable pub apply_rounds : ℕ → ℕ → Raft × D → Raft × D
  apply_rounds zero i (s, d) = (s, d)
  apply_rounds (suc n) i (s, d) = elim (get_elem? s.persistent.log (i - 1)) [
    | none ↦ (s, d)
    | some e ↦ apply_rounds n (i + 1) (set_last_applied i (apply_entry e (s, d)))
  ]

  -- A round of the apply thread.
  unfoldable pub apply_committed : Raft × D → Raft × D
  unfolding apply_rounds
  apply_committed (s, d) =
      let v = s.volatile_state in
      if ltb v.last_applied v.commit_index
      then apply_rounds (v.commit_index - v.last_applied) (v.last_applied + 1) (s, d)
      else (s, d)
