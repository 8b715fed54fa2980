-- ===== src/Wire/Guarded.antt =====
-- Rules for the deserialisers whose own checks keep the later reads inside the buffer.
use e_roole.Prelude.{
  ℕ, ◌+◌, ◌≤◌, ◌≡◌, ◌≢◌, List, length, arith, ltb, le→ltb, length-drop, Bool-cases, inl, inr, subst,
  refl, Bool, true, false, if◌then◌else◌,
}
use e_roole.Wire.Reader.{
  Parsed, ok, fail, fault, Reader, ◌>>=◌, pure, checked, run, and_then, advance, Takes, failing,
}

abbrev pub Outcome {ℓ} : {A : Type ℓ} → (A → Type 0) → Parsed A → Type 0
Outcome Q (ok v) = Q v
Outcome Q fail = Unit
Outcome Q fault = ⊥

-- No fault, and `Q` of what is returned.
pub record Returns {ℓ} {A : Type ℓ} (Q : A → Type 0) (p : Parsed A) : Type 0 where
  pub holds : Outcome Q p

-- The same for a reader that has taken `k` of the buffer's `n` bytes.
pub record Guarded {ℓ} {A : Type ℓ} (n k : ℕ) (Q : A → Type 0) (r : Reader A) : Type ℓ where
  pub runs : (xs : List ℕ) → k + length xs ≡ n → Outcome (λ p. Q p.0) (r xs)

pub Guarded-bind {ℓ κ} :
    {A : Type ℓ} {B : Type κ} {r : Reader A} {f : A → Reader B} {n k m : ℕ} {Q : B → Type 0}
    → Takes m r
    → k + m ≤ n
    → ((v : A) → Guarded n (k + m) Q (f v))
    → Guarded n k Q (r >>= f)
Guarded-bind t h g = record {
  runs = λ xs e.
      let (v, rest, e', l) = t.runs xs (omega arith) in
      rw (e', ◌>>=◌) ((g v).runs rest (omega arith));
}

pub Guarded-pure {ℓ} :
    {A : Type ℓ} {n k : ℕ} (Q : A → Type 0) (a : A) → Q a → Guarded n k Q (pure a)
Guarded-pure Q a q = record { runs = λ xs e. q }

pub checked-Returns {ℓ} :
    {A : Type ℓ} (m : ℕ) (r : Reader A) (Q : A → Type 0) (xs : List ℕ)
    → (m ≤ length xs → Guarded (length xs) 0 Q r)
    → Returns Q (checked m r xs)
checked-Returns {A = A} m r Q xs g = elim (Bool-cases (ltb (length xs) m)) [
  | inl short ↦ rw short (record { holds = tt })
  | inr long ↦ rw (long, run) (run_part (r xs) ((g (ground arith)).runs xs (omega arith)))
]
  where
    run_part :
        (p : Parsed (A × List ℕ))
        → Outcome (λ q. Q q.0) p
        → Returns Q (elim p [ ok (a, rest) ↦ ok a | fail ↦ fail | fault ↦ fault ])
    run_part (ok (a, rest)) h = record { holds = h }
    run_part fail h = record { holds = tt }
    run_part fault h = absurd h

pub and_then-Returns {ℓ κ} :
    {A : Type ℓ} {B : Type κ} {P : A → Type 0} {Q : B → Type 0} {p : Parsed A} (f : A → Parsed B)
    → Returns P p
    → ((a : A) → P a → Returns Q (f a))
    → Returns Q (and_then p f)
and_then-Returns {A = A} {P = P} {Q = Q} {p = p} f h k = by_cases p h.holds
  where
    by_cases : (q : Parsed A) → Outcome P q → Returns Q (and_then q f)
    by_cases (ok a) o = k a o
    by_cases fail o = record { holds = tt }
    by_cases fault o = absurd o

pub advance-Returns :
    (n : ℕ) (xs : List ℕ)
    → n ≤ length xs
    → Returns (λ rest. length rest + n ≡ length xs) (advance n xs)
unfolding advance
advance-Returns n xs h =
    rw (le→ltb (length xs) n h) (record { holds = omega (arith, length-drop n xs) })

pub Returns-ne-fault {ℓ} : {A : Type ℓ} {Q : A → Type 0} {p : Parsed A} → Returns Q p → p ≢ fault
Returns-ne-fault {Q = Q} h e = subst (Outcome Q) e h.holds

pub Returns-ok {ℓ} : {A : Type ℓ} {Q : A → Type 0} (a : A) → Q a → Returns Q (ok a)
Returns-ok a h = record { holds = h }

pub Returns-fail {ℓ} : {A : Type ℓ} (Q : A → Type 0) → Returns Q fail
Returns-fail Q = record { holds = tt }

-- A test that the code makes before it reads on.
pub Guarded-test {ℓ} :
    {A : Type ℓ} {n k : ℕ} {Q : A → Type 0} {r : Reader A} (b : Bool)
    → (b ≡ false → Guarded n k Q r)
    → Guarded n k Q (if b then failing else r)
Guarded-test true h = record { runs = λ xs e. tt }
Guarded-test false h = h refl

pub Guarded-test_bind {ℓ κ} :
    {A : Type ℓ} {B : Type κ} {n k : ℕ} {Q : B → Type 0} (r : Reader A) (f : A → Reader B)
    (b : Bool)
    → (b ≡ false → Guarded n k Q (r >>= f))
    → Guarded n k Q ((if b then failing else r) >>= f)
Guarded-test_bind r f true h = record { runs = λ xs e. tt }
Guarded-test_bind r f false h = h refl

pub Guarded-map {ℓ κ} :
    {A : Type ℓ} {B : Type κ} {n k : ℕ} {Q : B → Type 0} {r : Reader A} (f : A → B)
    → Guarded n k (λ a. Q (f a)) r
    → Guarded n k Q (r >>= λ a. pure (f a))
Guarded-map {A = A} {B = B} {Q = Q} {r = r} f g = record {
  runs = λ xs e. on_result (r xs) (g.runs xs e);
}
  where
    on_result :
        (p : Parsed (A × List ℕ))
        → Outcome (λ (q : A × List ℕ). Q (f q.0)) p
        → Outcome
            (λ (q : B × List ℕ). Q q.0)
            (elim p [ ok (a, rest) ↦ ok (f a, rest) | fail ↦ fail | fault ↦ fault ])
    on_result (ok (a, rest)) h = h
    on_result fail h = h
    on_result fault h = h

pub Guarded-last {ℓ} :
    {A : Type ℓ} {n k m : ℕ} {r : Reader A} → Takes m r → k + m ≤ n → Guarded n k (λ _. Unit) r
Guarded-last t h = record {
  runs = λ xs e. let (v, rest, e', l) = t.runs xs (omega arith) in rw e' tt;
}

-- A reader of which something is known, and what follows it.
pub Outcome-bind {ℓ κ} :
    {A : Type ℓ} {B : Type κ} (P : A → Type 0) (Q : B → Type 0) (p : Parsed (A × List ℕ))
    (f : A → Reader B)
    → Outcome (λ (q : A × List ℕ). P q.0) p
    → ((a : A) (rest : List ℕ) → P a → Outcome (λ (q : B × List ℕ). Q q.0) (f a rest))
    → Outcome
        (λ (q : B × List ℕ). Q q.0)
        (elim p [ ok (a, rest) ↦ f a rest | fail ↦ fail | fault ↦ fault ])
Outcome-bind P Q (ok (a, rest)) f h k = k a rest h
Outcome-bind P Q fail f h k = h
Outcome-bind P Q fault f h k = h
