-- ===== src/Component/Table.antt =====
-- The map of active components (src/component/mod.rs) by what it finds.
use v9_worker.Base.{◌≡◌, refl, ◌≢◌, none, some, List, [], ◌∷◌, ◌++◌, arith, if◌then◌else◌}
use v9_worker.Model.{ComponentPath, path_eq, path_eq_iff}
use v9_worker.Component.{ComponentHandle, find, put, without}

abbrev pub Table : Type 0
Table = List (ComponentPath × ComponentHandle)

pub find-without :
    (j k : ComponentPath) (l : Table)
    → find j (without k l) ≡ (if path_eq k j then none else find j l)
unfolding find without
find-without j k [] = ground arith
find-without j k ((i, h) ∷ l) =
    ground (arith, find-without j k l, path_eq_iff i k, path_eq_iff i j, path_eq_iff k j)

pub find-put_ne :
    (j k : ComponentPath) (h : ComponentHandle) (l : Table) → k ≢ j → find j (put k h l) ≡ find j l
unfolding find put
find-put_ne j k h [] ne = refl
find-put_ne j k h ((i, g) ∷ l) ne =
    ground (arith, find-put_ne j k h l ne, path_eq_iff i k, path_eq_iff i j, path_eq_iff k j)

pub find-put_self :
    (k : ComponentPath) (h g : ComponentHandle) (l : Table)
    → find k l ≡ some g
    → find k (put k h l) ≡ some h
unfolding find put
find-put_self k h g [] e = cc
find-put_self k h g ((i, f) ∷ l) e = ground (arith, find-put_self k h g l, path_eq_iff i k)

pub find-append_new :
    (j k : ComponentPath) (h : ComponentHandle) (l : Table)
    → find k l ≡ none
    → find j (l ++ (k, h) ∷ []) ≡ (if path_eq k j then some h else find j l)
unfolding find
find-append_new j k h [] e = refl
find-append_new j k h ((i, g) ∷ l) e =
    ground (arith, find-append_new j k h l, path_eq_iff i k, path_eq_iff i j, path_eq_iff k j)
