-- ===== src/Tour/Ship/Pieces.antt =====
-- The pieces in which a ship sends the content of a response.
use bay_server_python.Prelude.{
  ℕ, zero, suc, ◌≤◌, ◌<◌, ◌≡◌, refl, ap, ◌∙◌, Bytes, List, [], ◌∷◌, ◌++◌, append_assoc, append-nil,
  length, length-drop, length-take, take, drop, take-append-drop, ltb, Bool, true, false,
  Bool-cases, inl, inr, Option, none, some, lt→ltb, arith,
}
use bay_server_python.Prelude.Results.{ok}
use bay_server_python.Prelude.Acts.{Act}
use bay_server_python.Tour.Ship.{check_ship_id, send_pieces, send_res_content}

-- A handler that keeps what it is given.
abbrev pub Sent : Type 0
Sent = List (Bytes × Bool)

abbrev pub keep : Bytes → Bool → Act Sent (Unit {0})
keep buf callback sent = (sent ++ ((buf, callback) ∷ []), ok tt)

abbrev pub data_of : Sent → Bytes
data_of [] = []
data_of ((buf, callback) ∷ l) = buf ++ data_of l

-- Pieces of the size, without the callback, and a last one with it that is not empty.
pub data IsCut (max_len : ℕ) : Sent → Type 0 where
  last : (buf : Bytes) → 0 < length buf → length buf ≤ max_len → IsCut max_len ((buf, true) ∷ [])
  more :
      (buf : Bytes) (l : Sent)
      → length buf ≡ max_len
      → IsCut max_len l
      → IsCut max_len ((buf, false) ∷ l)

send_pieces-IsCut :
    (fuel max_len : ℕ) (buf : Bytes) (sent : Sent)
    → 0 < max_len
    → 0 < length buf
    → length buf < fuel
    → (l : Sent) × (send_pieces keep fuel max_len buf sent ≡ (sent ++ l, ok tt))
      × (data_of l ≡ buf)
      × IsCut max_len l
unfolding send_pieces
send_pieces-IsCut zero max_len buf sent p q enough = absurd (omega (arith, enough))
send_pieces-IsCut (suc fuel) max_len buf sent p q enough =
    elim (Bool-cases (ltb max_len (length buf))) [
      | inl e ↦
          let longer : max_len < length buf = ground (arith, e) in
          let short = length-drop max_len buf in
          let piece = take max_len buf in
          let (l, sends, data', cut) =
            send_pieces-IsCut fuel max_len (drop max_len buf) (sent ++ ((piece, false) ∷ [])) p
              (omega (arith, short, longer)) (omega (arith, short, longer, enough, p)) in
          (
            (piece, false) ∷ l,
            rw e (sends ∙ ap (λ x. (x, ok tt)) (append_assoc sent ((piece, false) ∷ []) l)),
            ap (λ x. piece ++ x) data' ∙ take-append-drop max_len buf,
            more piece l (omega (arith, length-take max_len buf, longer)) cut,
          )
      | inr e ↦
          let fits : length buf ≤ max_len = ground (arith, e) in
          let some_data : ltb 0 (length buf) ≡ true = lt→ltb _ _ q in
          ((buf, true) ∷ [], rw (e, some_data) refl, append-nil buf, last buf q fits)
    ]

-- The caller asks for no check, or names the ship.
abbrev pub Names : ℕ → Option ℕ → Type 0
Names ship_id none = Unit
Names ship_id (some chk) = chk ≡ ship_id

check_ship_id-Names :
    (ship_id : ℕ) (chk : Option ℕ) → Names ship_id chk → check_ship_id true ship_id chk ≡ ok tt
unfolding check_ship_id
check_ship_id-Names ship_id none h = refl
check_ship_id-Names ship_id (some chk) h = ground (arith, h)

-- For a ship that is initialised, a caller that names it or asks for no check, and packets of any size but
-- 0: content of a response that is not empty goes to the handler in pieces that are its bytes in their
-- order: all but the last have the size of a packet, the last one is not empty and has at most that size,
-- and the callback goes with the last piece only.
pub send_res_content-IsCut :
    (ship_id : ℕ) (chk : Option ℕ) (max_len : ℕ) (buf : Bytes) (sent : Sent)
    → Names ship_id chk
    → 0 < max_len
    → 0 < length buf
    → (l : Sent) × (send_res_content keep true ship_id chk max_len buf sent ≡ (sent ++ l, ok tt))
      × (data_of l ≡ buf)
      × IsCut max_len l
unfolding send_res_content
send_res_content-IsCut ship_id chk max_len buf sent names p q =
    let (l, sends, data', cut) =
      send_pieces-IsCut (suc (length buf)) max_len buf sent p q (omega arith) in
    (l, rw (check_ship_id-Names ship_id chk names) sends, data', cut)
