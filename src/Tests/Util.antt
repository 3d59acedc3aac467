-- ===== src/Tests/Util.antt =====
-- The object store and the texts of byte strings at concrete inputs.
use bay_server_python.Util.StringUtil.{from_bytes, ascii_or_utf8}
use bay_server_python.Prelude.{◌≡◌, refl, [], ◌∷◌, true, some, arith}
use bay_server_python.Prelude.Results.{ok, err, value_error}
use bay_server_python.Util.ObjectStore.{ObjectStore, new_store, rent, give_back}
use bay_server_python.Util.ObjectStore.Laws.{
  IsValid, IsActive, one_if, count, rent-IsValid, give_back-active,
}

new_store-IsValid : IsValid new_store
unfolding count
new_store-IsValid = record { once = λ x. omega arith }

abbrev one_active : ObjectStore
one_active = record { free_list = []; active_list = 7 ∷ [] }

rent-IsValid_example : IsValid one_active × IsActive 7 one_active
rent-IsValid_example =
    rent-IsValid (some 7) new_store one_active 7 new_store-IsValid (λ x e. unfold count in refl)
      (unfold rent in refl)

give_back-active_example :
    (s' : ObjectStore) × (give_back 7 true one_active ≡ ok s')
    × IsValid s'
    × (count 7 s'.active_list ≡ 0)
    × (count 7 s'.free_list ≡ one_if true)
give_back-active_example =
    give_back-active 7 true one_active rent-IsValid_example.0 rent-IsValid_example.1

-- Two, three and four bytes of a character; then an overlong form, a surrogate, and a start that is cut off.
text_of_two : from_bytes (0xc3 ∷ 0xa9 ∷ 0x61 ∷ []) ≡ 0xe9 ∷ 0x61 ∷ []
unfolding from_bytes
text_of_two = refl

text_of_three : from_bytes (0xe2 ∷ 0x82 ∷ 0xac ∷ []) ≡ 0x20ac ∷ []
unfolding from_bytes
text_of_three = refl

text_of_four : from_bytes (0xf0 ∷ 0x9f ∷ 0x98 ∷ 0x80 ∷ []) ≡ 0x1f600 ∷ []
unfolding from_bytes
text_of_four = refl

text_of_overlong : from_bytes (0xc0 ∷ 0x80 ∷ []) ≡ 0xfffd ∷ 0xfffd ∷ []
unfolding from_bytes
text_of_overlong = refl

text_of_surrogate : from_bytes (0xed ∷ 0xa0 ∷ 0x80 ∷ []) ≡ 0xfffd ∷ 0xfffd ∷ 0xfffd ∷ []
unfolding from_bytes
text_of_surrogate = refl

text_of_cut : from_bytes (0xe2 ∷ 0x82 ∷ 0x61 ∷ 0xf0 ∷ 0x9f ∷ []) ≡ 0xfffd ∷ 0x61 ∷ 0xfffd ∷ []
unfolding from_bytes
text_of_cut = refl

text_refused : ascii_or_utf8 (0xc8 ∷ []) ≡ err value_error
unfolding ascii_or_utf8
text_refused = refl
