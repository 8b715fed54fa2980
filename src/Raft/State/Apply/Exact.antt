-- ===== src/Raft/State/Apply/Exact.antt =====
-- What a round of the apply thread of raft_state.c applies.
use e_roole.Prelude.{
  ℕ, zero, suc, ◌+◌, ◌-◌, ◌≡◌, refl, List, [], ◌∷◌, none, some, inl, inr, length, take, drop,
  get_elem?, Option-cases, arith, ltb, Bool-cases,
}
use native.Mathlib.Numerals.{add-one}
use e_roole.Raft.Types.{Entry}
use e_roole.Raft.State.{Raft}
use e_roole.Raft.State.Apply.{apply_entry, set_last_applied, apply_rounds, apply_committed}

-- The entries that are committed and in the log, and not applied yet.
abbrev pub outstanding : Raft → List Entry
outstanding s =
    take (s.volatile_state.commit_index - s.volatile_state.last_applied)
      (drop s.volatile_state.last_applied s.persistent.log)

abbrev pub apply_all {ℓ} : {D : Type ℓ} → (Entry → D → D) → List Entry → D → D
apply_all f [] d = d
apply_all f (e ∷ es) d = apply_all f es (f e d)

drop_at {ℓ} :
    {A : Type ℓ} (xs : List A) (i : ℕ) (x : A)
    → get_elem? xs i ≡ some x
    → drop i xs ≡ x ∷ drop (suc i) xs
drop_at [] i x e = cc
drop_at (y ∷ ys) zero x e = cc
drop_at (y ∷ ys) (suc i) x e = drop_at ys i x e

drop_past {ℓ} : {A : Type ℓ} (xs : List A) (i : ℕ) → get_elem? xs i ≡ none → drop i xs ≡ []
drop_past [] zero e = refl
drop_past [] (suc i) e = refl
drop_past (y ∷ ys) zero e = cc
drop_past (y ∷ ys) (suc i) e = drop_past ys i e

take_nil {ℓ} : {A : Type ℓ} (n : ℕ) → take {A = A} n [] ≡ []
take_nil zero = refl
take_nil (suc n) = refl

module _ {ℓ} {D : Type ℓ} (f : Entry → D → D) where
  apply_rounds_exact :
      (n i : ℕ) (s : Raft) (d : D)
      → s.volatile_state.last_applied ≡ i
      → let todo = take n (drop i s.persistent.log) in
        let (s', d') = apply_rounds (some f) n (suc i) (s, d) in
        (d' ≡ apply_all f todo d)
        × (s'.volatile_state.last_applied ≡ i + length todo)
        × (s'.persistent ≡ s.persistent)
        × (s'.volatile_state.commit_index ≡ s.volatile_state.commit_index)
  unfolding apply_rounds apply_entry set_last_applied
  apply_rounds_exact zero i s d h = (refl, omega arith, refl, refl)
  apply_rounds_exact (suc n) i s d h =
      let at : suc i - 1 ≡ i = omega arith in
      let after : suc i + 1 ≡ suc (suc i) = omega arith in
      elim (Option-cases (get_elem? s.persistent.log i)) [
        | inl e ↦
            rw (drop_past s.persistent.log i e, at, apply_rounds, e, apply_rounds)
              (refl, omega arith, refl, refl)
        | inr (x, e) ↦
            rw (drop_at s.persistent.log i x e, at, apply_rounds, e, apply_rounds, after)
              (let (s1, d1) = set_last_applied (some f) (suc i) (apply_entry (some f) x (s, d)) in
                let (m, l, p, c) = apply_rounds_exact n (suc i) s1 d1 refl in
                (m, omega (arith, l), p, c))
      ]

  -- A round of the apply thread applies exactly the entries that are committed, in the log and not
  -- applied yet, in the order of the log; it advances lastApplied by their number, and changes
  -- neither the persistent state nor the commit index.
  pub apply_committed-apply_all :
      (s : Raft) (d : D)
      → let (s', d') = apply_committed (some f) (s, d) in
        (d' ≡ apply_all f (outstanding s) d)
        × (s'.volatile_state.last_applied ≡ s.volatile_state.last_applied + length (outstanding s))
        × (s'.persistent ≡ s.persistent)
        × (s'.volatile_state.commit_index ≡ s.volatile_state.commit_index)
  unfolding apply_committed
  apply_committed-apply_all s d =
      let v = s.volatile_state in
      elim (Bool-cases (ltb v.last_applied v.commit_index)) [
        | inl more ↦ rw more (
            rw (add-one v.last_applied)
              (apply_rounds_exact (v.commit_index - v.last_applied) v.last_applied s d refl))
        | inr idle ↦
            let none_left : v.commit_index - v.last_applied ≡ 0 = ground arith in
            rw (idle, none_left) (refl, omega arith, refl, refl)
      ]
