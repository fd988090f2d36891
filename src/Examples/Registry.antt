-- ===== src/Examples/Registry.antt =====
-- The registry of crates/net/src/registry.rs at concrete inputs.
use rust_gameserver.Base.{
  is_some, if◌then◌else◌, length, ℕ, ◌≡◌, refl, ◌⊎◌, true, List, [], ◌∷◌, none, some, Bytes,
  ℕ_discrete, arith,
}
use rust_gameserver.Base.Map.{get, insert}
use rust_gameserver.Net.Registry.{
  snapshot, count, Registry, Entry, default, register, set_user, authenticate, remove,
}
use rust_gameserver.Net.Registry.Listing.{mentions, user_in, user_of_entry, snapshot_lem}
use rust_gameserver.Net.Registry.Spec.{view, replay, run_refines}
use rust_gameserver.Net.Registry.Lookup.{session, holder}
use rust_gameserver.Net.Registry.Exclusive.{
  Op, registers, authenticates, run, step, one_session_per_user,
}
use rust_gameserver.Net.Registry.Linked.{remove_leaves_user}
use rust_gameserver.Examples.Params.{flags}

abbrev ann : Bytes
ann = 97 ∷ []

abbrev bob : Bytes
bob = 98 ∷ []

abbrev ops : List (Op ℕ)
ops = registers 1 10 ∷ registers 2 20 ∷ authenticates 1 ann ∷ authenticates 2 ann ∷ []

abbrev entry : ℕ → Entry ℕ
entry kick = record { user_id = some ann; kick = kick }

first_there : session (run flags (default, []) ops).0 1 ≡ some (entry 10)
unfolding run step register authenticate set_user get insert ℕ_discrete
first_there = refl

second_there : session (run flags (default, []) ops).0 2 ≡ some (entry 20)
unfolding run step register authenticate set_user get insert ℕ_discrete
second_there = refl

one_session_per_user_example :
    (flags.is_cancelled 10 (run flags (default, []) ops).1 ≡ true)
    ⊎ (flags.is_cancelled 20 (run flags (default, []) ops).1 ≡ true)
one_session_per_user_example =
    one_session_per_user flags [] ops 1 2 (entry 10) (entry 20) ann first_there second_there refl
      refl (omega arith)

abbrev one : Registry ℕ
one = record { sessions = (1, record { user_id = none; kick = 10 }) ∷ []; authenticated = [] }

one_there : session one 1 ≡ some (record { user_id = none; kick = 10 })
unfolding get ℕ_discrete
one_there = refl

remove_leaves_user_example :
    (holder
        (remove
          (authenticate flags
            (authenticate flags one [] 1 ann).0
            (authenticate flags one [] 1 ann).1
            1
            bob).0
          1)
        ann
      ≡ some 1)
    × (session
          (remove
            (authenticate flags
              (authenticate flags one [] 1 ann).0
              (authenticate flags one [] 1 ann).1
              1
              bob).0
            1)
          1
        ≡ none)
remove_leaves_user_example =
    remove_leaves_user flags one [] 1 ann bob (record { user_id = none; kick = 10 }) one_there
      (ground arith)

run_refines_example :
    (view (run flags (default, []) ops).0, (run flags (default, []) ops).1)
    ≡ replay flags (view default, []) ops
run_refines_example = run_refines flags (default, []) ops

snapshot_lem_example :
    (mentions 2 (snapshot (run flags (default, []) ops).0)
      ≡ (if is_some (session (run flags (default, []) ops).0 2) then 1 else 0))
    × (user_in 2 (snapshot (run flags (default, []) ops).0)
        ≡ user_of_entry (session (run flags (default, []) ops).0 2))
    × (length (snapshot (run flags (default, []) ops).0) ≡ count (run flags (default, []) ops).0)
snapshot_lem_example = snapshot_lem flags [] ops 2
