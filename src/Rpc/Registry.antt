-- ===== src/Rpc/Registry.antt =====
-- src/rpc/core/handler_registry.c: the table of MAX_HANDLERS cells. A function pointer or a context
-- is a number, NULL is zero, and the registry is not NULL.
pub mod Map
use e_roole.Prelude.{
  ℕ, ◌+◌, ◌-◌, ◌%◌, ◌^◌, ◌&&◌, not, Bool, true, false, List, Option, none, some, set, replicate,
  ◌==◌, if◌then◌else◌,
}
use e_roole.Slots.{find_slot}

pub record HandlerEntry : Type 0 where
  pub func_id : ℕ
  pub handler : ℕ
  pub user_context : ℕ
  pub active : Bool

pub record Registry : Type 0 where
  pub handlers : List HandlerEntry
  pub count : ℕ

-- `rpc_handler_registry_create`, where the allocation and the lock succeed.
unfoldable pub create : Registry
create = record {
  handlers = replicate 256 (record { func_id = 0; handler = 0; user_context = 0; active = false });
  count = 0;
}

abbrev pub serves : ℕ → HandlerEntry → Bool
serves func_id e = e.active && (e.func_id == func_id)

abbrev pub is_free : HandlerEntry → Bool
is_free e = not e.active

-- `rpc_handler_register`
unfoldable pub register : Registry → ℕ → ℕ → ℕ → Bool × Registry
register r func_id handler user_context =
    if handler == 0 then (false, r) else elim (find_slot (serves func_id) r.handlers) [
      | some (i, e) ↦ (
        true,
        record r {
          handlers = set r.handlers i (record e { handler = handler; user_context = user_context });
        },
      )
      | none ↦ elim (find_slot is_free r.handlers) [
        | none ↦ (false, r)
        | some (i, e) ↦ (
          true,
          record {
            handlers = set r.handlers i (record {
              func_id = func_id;
              handler = handler;
              user_context = user_context;
              active = true;
            });
            count = r.count + 1;
          },
        )
      ]
    ]

-- `rpc_handler_unregister`
unfoldable pub unregister : Registry → ℕ → Bool × Registry
unregister r func_id = elim (find_slot (serves func_id) r.handlers) [
  | none ↦ (false, r)
  | some (i, e) ↦ (
    true,
    record {
      handlers = set r.handlers i (record e { handler = 0; user_context = 0; active = false });
      count = (r.count + (2 ^ 64 - 1)) % 2 ^ 64;
    },
  )
]

-- `rpc_handler_lookup`: the handler and its context, or NULL.
unfoldable pub lookup : Registry → ℕ → Option (ℕ × ℕ)
lookup r func_id = elim (find_slot (serves func_id) r.handlers) [
  | none ↦ none
  | some (i, e) ↦ some (e.handler, e.user_context)
]
