-- ===== src/Slots.antt =====
-- The search for the first cell of an array that passes a test, and what it finds after a write.
use e_roole.Prelude.{
  ℕ, zero, suc, ◌≡◌, ◌≢◌, ◌⊎◌, inl, inr, refl, ap, Bool, true, false, List, [], ◌∷◌, Option, none,
  some, get_elem?, set, if◌then◌else◌, arith, Bool-cases,
}

module _ {ℓ} {A : Type ℓ} where
  abbrev pub next_slot : Option (ℕ × A) → Option (ℕ × A)
  next_slot none = none
  next_slot (some (i, x)) = some (suc i, x)

  -- The index and the contents of the cell, which the source returns as a pointer.
  unfoldable pub find_slot : (A → Bool) → List A → Option (ℕ × A)
  find_slot p [] = none
  find_slot p (x ∷ xs) = if p x then some (0, x) else next_slot (find_slot p xs)

  -- The same as a relation, to reason by induction on.
  pub data Found (p : A → Bool) : List A → ℕ → A → Type ℓ where
    here : {x : A} {xs : List A} → p x ≡ true → Found p (x ∷ xs) 0 x
    there :
        {x y : A} {xs : List A} {i : ℕ} → p x ≡ false → Found p xs i y → Found p (x ∷ xs) (suc i) y

  pub Found-find_slot :
      {p : A → Bool} {xs : List A} {i : ℕ} {x : A} → Found p xs i x → find_slot p xs ≡ some (i, x)
  unfolding find_slot
  Found-find_slot (here h) = rw h refl
  Found-find_slot (there h f) = rw (h, Found-find_slot f) refl

  -- The search finds nothing, or a cell.
  pub find_slot-cases :
      (p : A → Bool) (xs : List A) → (find_slot p xs ≡ none) ⊎ ((i : ℕ) × (x : A) × Found p xs i x)
  unfolding find_slot
  find_slot-cases p [] = inl refl
  find_slot-cases p (x ∷ xs) = elim (Bool-cases (p x)) [
    | inl hit ↦ inr (0, x, here hit)
    | inr miss ↦ elim (find_slot-cases p xs) [
      | inl n ↦ inl (rw (miss, n) refl)
      | inr (i, y, f) ↦ inr (suc i, y, there miss f)
    ]
  ]

  pub Found-sat : {p : A → Bool} {xs : List A} {i : ℕ} {x : A} → Found p xs i x → p x ≡ true
  Found-sat (here h) = h
  Found-sat (there h f) = Found-sat f

  pub Found-get_elem? :
      {p : A → Bool} {xs : List A} {i : ℕ} {x : A} → Found p xs i x → get_elem? xs i ≡ some x
  Found-get_elem? (here h) = refl
  Found-get_elem? (there h f) = Found-get_elem? f

  find_slot-head : (p : A → Bool) (x : A) (xs : List A) → find_slot p (x ∷ xs) ≡ none → p x ≡ false
  unfolding find_slot
  find_slot-head p x xs n = elim (Bool-cases (p x)) [
    | inl hit ↦ absurd (let n' = rw hit at n in cc)
    | inr miss ↦ miss
  ]

  find_slot-tail :
      (p : A → Bool) (x : A) (xs : List A) → find_slot p (x ∷ xs) ≡ none → find_slot p xs ≡ none
  unfolding find_slot
  find_slot-tail p x xs n = elim (find_slot-cases p xs) [
    | inl e ↦ e
    | inr (i, y, f) ↦ absurd (let n' = rw (find_slot-head p x xs n, Found-find_slot f) at n in cc)
  ]

  pub find_slot-none :
      (p : A → Bool) (xs : List A) (j : ℕ) (y : A)
      → find_slot p xs ≡ none
      → get_elem? xs j ≡ some y
      → p y ≡ false
  find_slot-none p [] j y n g = absurd cc
  find_slot-none p (x ∷ xs) zero y n g = let h = find_slot-head p x xs n in cc
  find_slot-none p (x ∷ xs) (suc j) y n g = find_slot-none p xs j y (find_slot-tail p x xs n) g

  -- Writing a value that passes the test into the cell found leaves it the cell found.
  pub Found-set :
      {p : A → Bool} {xs : List A} {i : ℕ} {x : A} (v : A)
      → Found p xs i x
      → p v ≡ true
      → Found p (set xs i v) i v
  Found-set v (here h) k = here k
  Found-set v (there h f) k = there h (Found-set v f k)

  -- Writing such a value where another search leads makes it the cell found.
  pub Found-set_new :
      {p q : A → Bool} {xs : List A} {i : ℕ} {x : A} (v : A)
      → find_slot p xs ≡ none
      → Found q xs i x
      → p v ≡ true
      → Found p (set xs i v) i v
  Found-set_new v n (here h) k = here k
  Found-set_new {p} {q} {xs} v n (there {x} {y} {xs = zs} {i} h f) k =
      there (find_slot-head p x zs n) (Found-set_new v (find_slot-tail p x zs n) f k)

  -- A write that neither adds nor takes away a cell that passes leaves the search as it was.
  pub find_slot-set_other :
      (p : A → Bool) {q : A → Bool} {xs : List A} {i : ℕ} {x : A} (v : A)
      → Found q xs i x
      → p x ≡ false
      → p v ≡ false
      → find_slot p (set xs i v) ≡ find_slot p xs
  unfolding find_slot
  find_slot-set_other p v (here h) a b = rw (a, b) refl
  find_slot-set_other p v (there h f) a b = rw (find_slot-set_other p v f a b) refl

  pub get_elem?-set :
      (xs : List A) (i j : ℕ) (v y : A)
      → get_elem? (set xs i v) j ≡ some y
      → ((j ≡ i) × (y ≡ v)) ⊎ ((j ≢ i) × (get_elem? xs j ≡ some y))
  get_elem?-set [] i j v y g = absurd cc
  get_elem?-set (x ∷ xs) zero zero v y g = inl (refl, cc)
  get_elem?-set (x ∷ xs) zero (suc j) v y g = inr (omega arith, g)
  get_elem?-set (x ∷ xs) (suc i) zero v y g = inr (omega arith, g)
  get_elem?-set (x ∷ xs) (suc i) (suc j) v y g = elim (get_elem?-set xs i j v y g) [
    | inl (e, e') ↦ inl (ap suc e, e')
    | inr (n, e) ↦ inr (omega (arith, n), e)
  ]

  -- Where only the written cell passed, and the value written does not, nothing is found.
  pub find_slot-set-none :
      (p : A → Bool) (xs : List A) (i : ℕ) (v : A)
      → ((j : ℕ) (y : A) → get_elem? xs j ≡ some y → p y ≡ true → j ≡ i)
      → p v ≡ false
      → find_slot p (set xs i v) ≡ none
  find_slot-set-none p xs i v only miss = elim (find_slot-cases p (set xs i v)) [
    | inl n ↦ n
    | inr (j, y, f) ↦ elim (get_elem?-set xs i j v y (Found-get_elem? f)) [
      | inl (e, e') ↦ absurd (let h = Found-sat f in cc)
      | inr (ne, g) ↦ absurd (ne (only j y g (Found-sat f)))
    ]
  ]
