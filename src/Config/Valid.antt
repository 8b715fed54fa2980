-- ===== src/Config/Valid.antt =====
-- When src/config/config_validator.c accepts a configuration.
use e_roole.Prelude.{
  ℕ, ◌+◌, ◌≤◌, ◌<◌, ◌≡◌, ◌&&◌, Bool, true, false, [], ◌∷◌, length, length-append, arith, Bool-cases,
  inl, inr,
}
use e_roole.Config.Validator.{Result, max_errors, add_error}

-- A step keeps the result valid exactly if `good`, and then adds at most `w` warnings to it, provided
-- that there is room for them.
pub record Checks (w : ℕ) (good : Bool) (v : Result → Result) : Type 0 where
  pub runs :
      (r : Result)
      → (r.valid ≡ true → length r.errors + w < max_errors)
      → ((v r).valid ≡ (r.valid && good))
        × ((v r).valid ≡ true → length (v r).errors ≤ length r.errors + w)

pub Checks-pass : Checks 0 true (λ r. r)
Checks-pass = record { runs = λ r h. (ground arith, λ e. omega arith) }

pub Checks-warn : (s : ℕ) → s ≡ 0 → Checks 1 true (add_error s)
unfolding add_error
Checks-warn s zero_s = record {
  runs = λ r h. elim (Bool-cases r.valid) [
    | inl on ↦
        let room = h on in (ground arith, λ e. ground (arith, length-append r.errors (s ∷ [])))
    | inr off ↦ (ground arith, λ e. ground arith)
  ];
}

pub Checks-error : (s : ℕ) → 1 ≤ s → Checks 0 false (add_error s)
unfolding add_error
Checks-error s big = record {
  runs = λ r h. elim (Bool-cases r.valid) [
    | inl on ↦ let room = h on in (ground arith, λ e. ground arith)
    | inr off ↦ (ground arith, λ e. ground arith)
  ];
}

pub Checks-compose :
    {w w' : ℕ} {a b : Bool} {u v : Result → Result}
    → Checks w a u
    → Checks w' b v
    → Checks (w + w') (a && b) (λ r. v (u r))
Checks-compose {u = u} k l = record {
  runs = λ r h.
      let (same, fewer) = k.runs r (λ on. let room = h on in omega arith) in
      let (same', fewer') = l.runs (u r) (λ on.
        let few = fewer on in
        let was : r.valid ≡ true = ground arith in let room = h was in omega arith) in
      (
        ground arith,
        λ on.
            let least = fewer' on in
            let mid : (u r).valid ≡ true = ground arith in let few = fewer mid in omega arith,
      );
}

pub Checks-weaken :
    {w w' : ℕ} {a : Bool} {v : Result → Result} → Checks w a v → w ≤ w' → Checks w' a v
Checks-weaken k le = record {
  runs = λ r h.
      let (same, fewer) = k.runs r (λ on. let room = h on in omega arith) in
      (same, λ on. let few = fewer on in omega arith);
}
