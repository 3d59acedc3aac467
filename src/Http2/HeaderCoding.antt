-- ===== src/Http2/HeaderCoding.antt =====
-- From a header field to an entry of the header list and back:
-- bayserver_docker_http/h2/header_block_builder.py (`build_header_block`) and
-- header_block_analyzer.py.
pub mod Fields
pub mod RoundTrip
use bay_server_python.Prelude.{
  ℕ, Bytes, List, [], ◌∷◌, Option, none, some, Bool, ◌==◌, if◌then◌else◌, text_eq, codes,
}
use bay_server_python.Prelude.Results.{Result, ok, err, index_error, ◌>>=◌}
use bay_server_python.Http2.HeaderTable.{HeaderTable, KeyVal, get, get_idx_list, insert, set_size}
use bay_server_python.Http2.HeaderBlock.{
  HeaderBlock, index, overload_known_header, new_header, known_header, unknown_header,
  update_dynamic_table_size,
}

-- The loop over the indexes of the name: the first that leads to the value.
unfoldable pub find_value : Bytes → List ℕ → HeaderTable → Result (Option ℕ)
find_value v [] t = ok none
find_value v (idx ∷ l) t = get idx t >>= λ kv.
    (let rest = find_value v l t in if text_eq v kv.value then ok (some idx) else rest)

abbrev pub literal_block : Bytes → Bytes → List ℕ → HeaderBlock
literal_block n v [] = unknown_header n v
literal_block n v (idx ∷ l) = known_header idx v

abbrev pub choose_block : Bytes → Bytes → List ℕ → Option ℕ → HeaderBlock
choose_block n v l none = literal_block n v l
choose_block n v l (some idx) = index idx

unfoldable pub build_header_block : Bytes → Bytes → HeaderTable → Result HeaderBlock
unfolding find_value
build_header_block n v t =
    let l = get_idx_list n t in find_value v l t >>= λ found. ok (choose_block n v l found)

pub record Analyzer : Type 0 where
  pub name : Option Bytes
  pub value : Option Bytes
  pub method : Option Bytes
  pub path : Option Bytes
  pub scheme : Option Bytes
  pub status : Option Bytes

abbrev pub clear : Analyzer
clear = record {
  name = none;
  value = none;
  method = none;
  path = none;
  scheme = none;
  status = none;
}

-- The part behind the branches on `op`; `name[0]` of an empty name is an IndexError.
unfoldable pub classify : Bytes → Bytes → Result Analyzer
classify [] v = err index_error
classify (c ∷ cs) v =
    let n = c ∷ cs in
    let field = record clear { name = some n; value = some v } in
    if c == b':'
    then (if text_eq n (codes ":authority")
        then ok (record field { name = some (codes "host") })
        else if text_eq n (codes ":method")
        then ok (record field { method = some v })
        else if text_eq n (codes ":path")
        then ok (record field { path = some v })
        else if text_eq n (codes ":scheme")
        then ok (record field { scheme = some v })
        else if text_eq n (codes ":status")
        then ok (record field { status = some v })
        else ok field)
    else ok field

abbrev pub with_table : HeaderTable → Result Analyzer → Result (Analyzer × HeaderTable)
with_table t r = r >>= λ a. ok (a, t)

-- The analyzer forgets what it held, so the result is its new state, with the table.
unfoldable pub analyze_header_block : HeaderBlock → HeaderTable → Result (Analyzer × HeaderTable)
unfolding classify
analyze_header_block (index i) t = get i t >>= λ kv. with_table t (classify kv.name kv.value)
analyze_header_block (known_header i v) t = get i t >>= λ kv. with_table t (classify kv.name v)
analyze_header_block (overload_known_header i v) t =
    get i t >>= λ kv. with_table (insert kv.name v t) (classify kv.name v)
analyze_header_block (new_header n v) t = with_table (insert n v t) (classify n v)
analyze_header_block (unknown_header n v) t = with_table t (classify n v)
analyze_header_block (update_dynamic_table_size n) t = ok (clear, set_size n t)
