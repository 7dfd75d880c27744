-- ===== src/Pg/Ring/Tests.antt =====
-- The ring's theorems at a ring of four bytes that has gone round its storage.
use c_fs_subscriber.Base.{◌≡◌, refl, some, List, [], ◌∷◌, arith}
use c_fs_subscriber.Pg.Ring.{Ring, push_backv}
use c_fs_subscriber.Pg.Ring.Bulk.{push_each, push_backv-push_each}
use c_fs_subscriber.Pg.Ring.Abstract
use c_fs_subscriber.Pg.Ring.Cycle.{cycle}
use c_fs_subscriber.Pg.Ring.Deque.{contents}
use c_fs_subscriber.Pg.Ring.Run.{
  Call, at_index, at_front, at_back, room, empty_out, to_back, to_front, from_back, from_front,
  skip_front, all_to_back, run, deque_run, run_refines, AllowsAll, deque_call,
}
use c_fs_subscriber.Pg.Ring.Valid.{IsValid}

-- 8, then 9, round the end of the storage
abbrev wrapped : Ring
wrapped = record { store = 9 ∷ 6 ∷ 7 ∷ 8 ∷ []; len = 2; offset = 3; cap = 4 }

wrapped-IsValid : IsValid wrapped
wrapped-IsValid = omega arith

abbrev script : List Call
script =
    at_back
    ∷ to_back 1
    ∷ at_index 2
    ∷ from_front
    ∷ at_front
    ∷ room
    ∷ to_front 2
    ∷ all_to_back (3 ∷ [])
    ∷ from_back
    ∷ empty_out
    ∷ skip_front 9
    ∷ []

script-AllowsAll : AllowsAll 4 (contents wrapped) script
unfolding deque_call contents cycle Abstract.push_back Abstract.push_front Abstract.push_backv
    Abstract.pop_front Abstract.pop_back Abstract.consume_front Abstract.get Abstract.front
    Abstract.back Abstract.space
script-AllowsAll = omega arith

run_refines_example : run wrapped script ≡ deque_run 4 (contents wrapped) script
run_refines_example = run_refines script wrapped-IsValid script-AllowsAll

push_backv-push_each_example : push_backv wrapped (1 ∷ 2 ∷ []) ≡ push_each wrapped (1 ∷ 2 ∷ [])
push_backv-push_each_example = push_backv-push_each (1 ∷ 2 ∷ []) wrapped-IsValid (omega arith)

push_backv_wraps :
    push_backv wrapped (1 ∷ 2 ∷ []) ≡ some (record wrapped { store = 9 ∷ 1 ∷ 2 ∷ 8 ∷ []; len = 4 })
unfolding push_backv
push_backv_wraps = refl
