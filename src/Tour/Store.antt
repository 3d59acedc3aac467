-- ===== src/Tour/Store.antt =====
-- bayserver_core/tour/tour_store.py: the tours of an agent. A tour is its identity; `tours` holds the
-- objects, `created` says how many there are. The map of the active tours is kept in the order of its
-- insertions. The lock and the class's map of the agents' stores are not part of the model.
pub mod Laws
pub mod Refines
pub mod Bounds
use bay_server_python.Prelude.{
  ℕ, suc, List, [], ◌∷◌, ◌++◌, length, leb, ◌==◌, if◌then◌else◌, Bool, true, false, not, ◌&&◌,
  Option, none, some,
}
use bay_server_python.Prelude.Results.{Result, ok, err, sink}
use bay_server_python.Tour.State.{Tour, new_tour, reset}

pub record TourStore : Type 0 where
  pub free_tours : List ℕ
  pub active_tour_map : List (ℕ × ℕ)
  pub tours : ℕ → Tour
  pub created : ℕ

abbrev pub new_store : TourStore
new_store = record { free_tours = []; active_tour_map = []; tours = λ _. new_tour; created = 0 }

unfoldable pub lookup : ℕ → List (ℕ × ℕ) → Option ℕ
lookup key [] = none
lookup key ((k, t) ∷ m) = let rest = lookup key m in if key == k then some t else rest

-- `del m[key]`, for a key of the map.
unfoldable pub remove : ℕ → List (ℕ × ℕ) → List (ℕ × ℕ)
remove key [] = []
remove key ((k, t) ∷ m) = let rest = remove key m in if key == k then m else (k, t) ∷ rest

-- The values are tours, which are not None.
unfoldable pub get : ℕ → TourStore → Option ℕ
unfolding lookup
get key s = lookup key s.active_tour_map

-- `l.pop(-(len(l) - 1))`: the only tour, else the second one.
unfoldable pub pop_free : List ℕ → Option (ℕ × List ℕ)
pop_free [] = none
pop_free (t ∷ []) = some (t, [])
pop_free (t ∷ u ∷ l) = some (u, t ∷ l)

abbrev pub set_at : ℕ → Tour → (ℕ → Tour) → ℕ → Tour
set_at x t tours y = if y == x then t else tours y

abbrev pub activate : ℕ → ℕ → TourStore → TourStore
activate key t s = record s { active_tour_map = s.active_tour_map ++ ((key, t) ∷ []) }

-- `tour.Tour()`
abbrev pub create : TourStore → ℕ × TourStore
create s =
    (s.created, record s { tours = set_at s.created new_tour s.tours; created = suc s.created })

-- `rent`, which answers None where the maximum is reached.
unfoldable pub rent : ℕ → Bool → ℕ → TourStore → Result (Option ℕ × TourStore)
unfolding get pop_free
rent max_count force key s = elim (get key s) [
  | some _ ↦ err sink
  | none ↦ elim (pop_free s.free_tours) [
    | some (t, rest) ↦ ok (some t, activate key t (record s { free_tours = rest }))
    | none ↦
        let (t, s') = create s in
        if not force && leb max_count (length s.active_tour_map)
        then ok (none, s)
        else ok (some t, activate key t s')
  ]
]

-- `Return`
unfoldable pub give_back : ℕ → TourStore → Result TourStore
unfolding lookup remove
give_back key s = elim (lookup key s.active_tour_map) [
  | none ↦ err sink
  | some t ↦ ok (record s {
    free_tours = s.free_tours ++ (t ∷ []);
    active_tour_map = remove key s.active_tour_map;
    tours = set_at t (reset (s.tours t)) s.tours;
  })
]
