-- ===== src/Node/PeerSync/Lists.antt =====
-- Lists of different ids.
use e_roole.Prelude.{
  erase, ℕ, zero, suc, ◌≡◌, ◌≢◌, refl, sym, subst, ◌∙◌, ◌&&◌, ◌||◌, not, true, false, List, [], ◌∷◌,
  ◌++◌, some, get_elem?, All, ◌==◌, ==_iff, ne→==, arith, Bool-cases, inl, inr,
}
use e_roole.Node.PeerSync.{contains}

abbrev pub Distinct : List ℕ → Type 0
Distinct [] = Unit
Distinct (x ∷ xs) = (contains x xs ≡ false) × Distinct xs

pub contains-append :
    (id : ℕ) (xs ys : List ℕ) → contains id (xs ++ ys) ≡ (contains id xs || contains id ys)
unfolding contains
contains-append id [] ys = refl
contains-append id (x ∷ xs) ys = ground (arith, contains-append id xs ys)

pub contains-get_elem? : (xs : List ℕ) (i x : ℕ) → get_elem? xs i ≡ some x → contains x xs ≡ true
unfolding contains
contains-get_elem? [] i x g = absurd cc
contains-get_elem? (y ∷ xs) zero x g = ground arith
contains-get_elem? (y ∷ xs) (suc i) x g = ground (arith, contains-get_elem? xs i x g)

pub contains-erase :
    (id : ℕ) (xs : List ℕ) (i x : ℕ)
    → Distinct xs
    → get_elem? xs i ≡ some x
    → contains id (erase i xs) ≡ (contains id xs && not (x == id))
unfolding contains
contains-erase id [] i x d g = absurd cc
contains-erase id (y ∷ xs) zero x d g =
    let same : y ≡ x = cc in
    elim (Bool-cases (x == id)) [
      | inl hit ↦
          let one : y ≡ id = same ∙ (==_iff x id).0 hit in
          let gone : contains id xs ≡ false = subst (λ z. contains z xs ≡ false) one d.0 in
          rw (hit, gone) (ground arith)
      | inr miss ↦ rw (same, miss) (ground arith)
    ]
contains-erase id (y ∷ xs) (suc i) x d g = elim (Bool-cases (y == id)) [
  | inl hit ↦
      let one : y ≡ id = (==_iff y id).0 hit in
      let there = contains-get_elem? xs i x g in
      let differ : (x == id) ≡ false =
        ne→== x id (λ e. let absent = subst (λ z. contains z xs ≡ false) (one ∙ sym e) d.0 in cc) in
      rw (hit, differ) refl
  | inr miss ↦ rw (miss, contains-erase id xs i x d.1 g) refl
]

contains_less :
    (x : ℕ) (xs : List ℕ) (i : ℕ) → contains x xs ≡ false → contains x (erase i xs) ≡ false
unfolding contains
contains_less x [] i h = refl
contains_less x (y ∷ xs) zero h = ground arith
contains_less x (y ∷ xs) (suc i) h = ground (arith, contains_less x xs i)

pub Distinct-erase : (xs : List ℕ) (i : ℕ) → Distinct xs → Distinct (erase i xs)
Distinct-erase [] i d = tt
Distinct-erase (x ∷ xs) zero d = d.1
Distinct-erase (x ∷ xs) (suc i) d = (contains_less x xs i d.0, Distinct-erase xs i d.1)

pub Distinct-append_one :
    (xs : List ℕ) (x : ℕ) → Distinct xs → contains x xs ≡ false → Distinct (xs ++ (x ∷ []))
unfolding contains
Distinct-append_one [] x d h = (refl, tt)
Distinct-append_one (y ∷ xs) x d h =
    let last = contains-append y xs (x ∷ []) in
    let first = d.0 in
    let absent : (y == x) ≡ false = ground arith in
    let absent' : (x == y) ≡ false = ground arith in
    (ground arith, Distinct-append_one xs x d.1 (ground arith))

pub contains-All : (id : ℕ) (xs : List ℕ) → All (λ x. x ≢ id) xs → contains id xs ≡ false
unfolding contains
contains-All id [] h = refl
contains-All id (x ∷ xs) h = ground (arith, contains-All id xs h.1, h.0)
