-- ===== src/Examples/Keys.antt =====
-- The key-value store.
use e_roole.Prelude.{
  ℕ, ◌≡◌, refl, ap, sym, ◌∙◌, true, [], ◌∷◌, Option, none, some, arith, if◌then◌else◌, get_elem?,
  zero, suc,
}
use e_roole.Slots.{find_slot}
use e_roole.Raft.Datastore.Table.{
  Record, fetch, strings_equal, find_record, find_free_slot, Unique, Valid, count_active,
}
use e_roole.Raft.Datastore.Command.{set_command}
use e_roole.Raft.Datastore.Execute.{execute_set, execute_unset, execute, write_value}
use e_roole.Raft.Datastore.Execute.Map.{execute_set-fetch, execute_unset-fetch}
use e_roole.Raft.Datastore.Execute.Keeps.{execute-Valid}
use e_roole.Examples.Data.{key_a, key_b, store}

in_use_first : (i : ℕ) (r : Record) → get_elem? store.records i ≡ some r → r.active ≡ true → i ≡ 0
in_use_first zero r g a = refl
in_use_first (suc zero) r g a =
    absurd
      (let off = ap (λ (o : Option Record). elim o [ none ↦ true | some x ↦ x.active ]) g in cc)
in_use_first (suc (suc i)) r g a = absurd cc

store-Unique : Unique store.records
store-Unique i j r q gr gq ar aq e = in_use_first i r gr ar ∙ sym (in_use_first j q gq aq)

store-Valid : Valid store
unfolding count_active
store-Valid = (refl, store-Unique, omega arith)

execute_set-fetch_example :
    fetch (execute_set key_b (6 ∷ 7 ∷ []) (λ n. true) 1 2 store).1 key_a
    ≡ (if strings_equal key_a key_b then some (some (6 ∷ 7 ∷ [])) else fetch store key_a)
unfolding execute_set find_record find_free_slot find_slot write_value strings_equal
execute_set-fetch_example = execute_set-fetch key_b (6 ∷ 7 ∷ []) (λ n. true) 1 2 store key_a refl

execute_unset-fetch_example :
    fetch (execute_unset key_a store).1 key_b
    ≡ (if strings_equal key_b key_a then none else fetch store key_b)
execute_unset-fetch_example = execute_unset-fetch key_a store key_b store-Unique

execute-Valid_example : Valid (execute (set_command key_b (6 ∷ [])) (λ n. true) 1 2 store).1
execute-Valid_example = execute-Valid (set_command key_b (6 ∷ [])) (λ n. true) 1 2 store store-Valid
