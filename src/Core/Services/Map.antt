-- ===== src/Core/Services/Map.antt =====
-- What src/core/service_registry.c finds under a name after a registration.
use e_roole.Prelude.{
  ℕ, ◌≤◌, ◌≡◌, refl, ap, sym, ◌∙◌, true, false, List, none, some, set, length, if◌then◌else◌,
  Bool-cases, inl, inr, subst,
}
use e_roole.Slots.{
  find_slot, Found, Found-find_slot, Found-sat, find_slot-cases, Found-set_new, find_slot-set_other,
}
use e_roole.Raft.Datastore.Table.{strings_equal, strings_equal_iff}
use e_roole.Core.Services.{ServiceEntry, is_named, is_free, stored_name, add_service, find_service}
use e_roole.Wire.Text.{take-all}

abbrev entry_of : List ℕ → ℕ → ServiceEntry
entry_of name service_ptr = record {
  name = stored_name name;
  service_ptr = service_ptr;
  active = true;
}

is_free-unnamed : (name : List ℕ) (e : ServiceEntry) → is_free e ≡ true → is_named name e ≡ false
is_free-unnamed name e free = elim (Bool-cases e.active) [
  | inl on ↦ absurd (let d = rw on at free in cc)
  | inr off ↦ rw off refl
]

entry_of-is_named :
    (name other : List ℕ) (service_ptr : ℕ)
    → length name ≤ 63
    → is_named other (entry_of name service_ptr) ≡ strings_equal name other
entry_of-is_named name other service_ptr fits =
    ap (λ n. strings_equal n other) (take-all 63 name fits)

Found-find_service :
    (es : List ServiceEntry) (name : List ℕ) {i : ℕ} {e : ServiceEntry}
    → Found (is_named name) es i e
    → find_service es name ≡ e.service_ptr
unfolding find_service
Found-find_service es name f = rw (find_service, Found-find_slot f) refl

find_slot-find_service :
    (es zs : List ServiceEntry) (name : List ℕ)
    → find_slot (is_named name) es ≡ find_slot (is_named name) zs
    → find_service es name ≡ find_service zs name
unfolding find_service
find_slot-find_service es zs name h = rw (find_service, h) refl

-- After a registration that succeeds, under a name of at most 63 characters, the name leads to the
-- service, and every other name where it led before.
pub find_service-add_service :
    (es es' : List ServiceEntry) (name other : List ℕ) (service_ptr : ℕ)
    → add_service es name service_ptr ≡ some es'
    → length name ≤ 63
    → find_service es' other
      ≡ (if strings_equal name other then service_ptr else find_service es other)
unfolding add_service find_service
find_service-add_service es es' name other service_ptr done fits =
    elim (find_slot-cases (is_named name) es) [
      | inr (i, e, f) ↦ absurd (let d = rw (Found-find_slot f, add_service) at done in cc)
      | inl n ↦ elim (find_slot-cases is_free es) [
        | inl full ↦ absurd (let d = rw (n, add_service, full) at done in cc)
        | inr (i, e, f) ↦
            let v = entry_of name service_ptr in
            let written : set es i v ≡ es' =
              (let d = rw (n, add_service, Found-find_slot f) at done in cc) in
            let same = entry_of-is_named name other service_ptr fits in
            rw (sym written) (elim (Bool-cases (strings_equal name other)) [
              | inl equal ↦
                  let one = (strings_equal_iff name other).0 equal in
                  let absent = subst (λ o. find_slot (is_named o) es ≡ none) one n in
                  rw equal (
                    Found-find_service (set es i v) other (Found-set_new v absent f (same ∙ equal)))
              | inr differ ↦
                  let unnamed = is_free-unnamed other e (Found-sat f) in
                  rw differ (
                    find_slot-find_service (set es i v) es other
                      (find_slot-set_other (is_named other) v f unnamed (same ∙ differ)))
            ])
      ]
    ]
