-- ===== src/Http2/HeaderTable.antt =====
-- bayserver_docker_http/h2/header_table.py: the table of header fields that HPACK indexes. The
-- static table and a dynamic table are values of one class.
pub mod Static
pub mod Laws
use bay_server_python.Prelude.{
  ℕ, zero, suc, ◌+◌, ◌-◌, Bytes, List, [], ◌∷◌, ◌++◌, map, length, get_elem?, Option, none, some,
  Bool, ◌||◌, ltb, leb, ◌==◌, not, if◌then◌else◌, text_eq,
}
use bay_server_python.Prelude.Results.{Result, ok, err, runtime_error, ◌>>=◌}
use Static.{entries}

pub record KeyVal : Type 0 where
  pub name : Bytes
  pub value : Bytes

-- `name_map` is a dictionary from a name to the list of its indexes, in the order of insertion.
pub record HeaderTable : Type 0 where
  pub idx_map : List KeyVal
  pub add_count : ℕ
  pub name_map : List (Bytes × List ℕ)

abbrev pub empty : HeaderTable
empty = record { idx_map = []; add_count = 0; name_map = [] }

unfoldable pub name_get : Bytes → List (Bytes × List ℕ) → Option (List ℕ)
name_get n [] = none
name_get n ((m, l) ∷ r) = if text_eq m n then some l else name_get n r

unfoldable pub add_to_name_map : Bytes → ℕ → List (Bytes × List ℕ) → List (Bytes × List ℕ)
add_to_name_map n idx [] = (n, idx ∷ []) ∷ []
add_to_name_map n idx ((m, l) ∷ r) =
    if text_eq m n then (m, l ++ (idx ∷ [])) ∷ r else (m, l) ∷ add_to_name_map n idx r

unfoldable pub insert : Bytes → Bytes → HeaderTable → HeaderTable
unfolding add_to_name_map
insert n v t =
    let count = t.add_count + 1 in
    record {
      idx_map = record { name = n; value = v } ∷ t.idx_map;
      add_count = count;
      name_map = add_to_name_map n count t.name_map;
    }

-- `set_size` does nothing.
unfoldable pub set_size : ℕ → HeaderTable → HeaderTable
set_size n t = t

unfoldable pub put : ℕ → Bytes → Bytes → HeaderTable → Result HeaderTable
unfolding add_to_name_map
put idx n v t =
    if not (idx == length t.idx_map + 1)
    then err runtime_error
    else ok (record t {
      idx_map = t.idx_map ++ (record { name = n; value = v } ∷ []);
      name_map = add_to_name_map n idx t.name_map;
    })

unfoldable pub put_all : List (ℕ × Bytes × Bytes) → HeaderTable → Result HeaderTable
unfolding put
put_all [] t = ok t
put_all ((idx, n, v) ∷ r) t = put idx n v t >>= put_all r

abbrev or_empty : Result HeaderTable → HeaderTable
or_empty r = elim r [ ok t ↦ t | err e ↦ empty ]

-- The static table, after the calls of `put`, none of which raises (`Laws.put_all-static`).
unfoldable pub static_table : HeaderTable
unfolding put_all
static_table = or_empty (put_all entries empty)

-- `len(static_table.idx_map)`
abbrev pub static_size : ℕ
static_size = 61

abbrev pub or_raise : Option KeyVal → Result KeyVal
or_raise none = err runtime_error
or_raise (some kv) = ok kv

unfoldable pub get : ℕ → HeaderTable → Result KeyVal
get idx t =
    if idx == 0 || ltb (static_size + length t.idx_map) idx
    then err runtime_error
    else if leb idx static_size
    then or_raise (get_elem? static_table.idx_map (idx - 1))
    else or_raise (get_elem? t.idx_map (idx - static_size - 1))

abbrev pub or_nil : Option (List ℕ) → List ℕ
or_nil none = []
or_nil (some l) = l

-- The indexes of a name: those of the static table, then `add_count - idx + static_size` for those
-- of the dynamic table.
unfoldable pub get_idx_list : Bytes → HeaderTable → List ℕ
unfolding name_get
get_idx_list n t =
    or_nil (name_get n static_table.name_map)
    ++ map (λ idx. t.add_count - idx + static_size) (or_nil (name_get n t.name_map))
