-- ===== src/Util/ObjectStore.antt =====
-- bayserver_core/util/object_store.py: a pool of reusable objects. An object is its identity, by which
-- `in` and `remove` compare. `free_list` is kept with its last object first, since `pop` and `append`
-- work at its end. What the factory would return is an argument of `rent`; `none` is its None. The
-- object's own `reset`, which `Return` calls last, acts on the object and not on the store.
pub mod Laws
use bay_server_python.Prelude.{
  ℕ, List, [], ◌∷◌, ◌++◌, length, ltb, ◌==◌, if◌then◌else◌, Bool, true, false, ◌||◌, Option, none,
  some,
}
use bay_server_python.Prelude.Results.{Result, ok, err, sink}

pub record ObjectStore : Type 0 where
  pub free_list : List ℕ
  pub active_list : List ℕ

abbrev pub new_store : ObjectStore
new_store = record { free_list = []; active_list = [] }

-- With active objects the store forgets all objects; else it keeps the free ones.
unfoldable pub reset : ObjectStore → ObjectStore
reset s = if ltb 0 (length s.active_list) then new_store else s

-- `obj in l`
unfoldable pub elem : ℕ → List ℕ → Bool
elem obj [] = false
elem obj (o ∷ l) = (obj == o) || elem obj l

-- `l.remove(obj)`, for an object of the list: the first one goes.
unfoldable pub remove : ℕ → List ℕ → List ℕ
remove obj [] = []
remove obj (o ∷ l) = let rest = remove obj l in if obj == o then l else o ∷ rest

abbrev activate : ℕ → List ℕ → ObjectStore → ℕ × ObjectStore
activate obj free s = (obj, record { free_list = free; active_list = s.active_list ++ (obj ∷ []) })

unfoldable pub rent : Option ℕ → ObjectStore → Result (ℕ × ObjectStore)
rent created s = elim s.free_list [
  | [] ↦ elim created [ none ↦ err sink | some obj ↦ ok (activate obj [] s) ]
  | obj ∷ free ↦ ok (activate obj free s)
]

-- `Return(obj, reuse)`
unfoldable pub give_back : ℕ → Bool → ObjectStore → Result ObjectStore
unfolding elem remove
give_back obj reuse s =
    if elem obj s.free_list
    then err sink
    else if elem obj s.active_list
    then ok (record {
      free_list = if reuse then obj ∷ s.free_list else s.free_list;
      active_list = remove obj s.active_list;
    })
    else err sink
