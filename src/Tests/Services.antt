-- ===== src/Tests/Services.antt =====
-- Timers, emitters, rooms and users.
use the_game_server.Users.Cache.{Call, by_id, by_token, creates, run_calls, run_calls_give}
use the_game_server.Base.{All}
use the_game_server.Rooms.Numbers.{IsFirstFree, IsFull, IsSound, obtain-IsSound}
use the_game_server.Timers.{emit, subscribe, Timer}
use the_game_server.Rooms.{obtain, RoomManager}
use the_game_server.Base.{
  ℕ, ◌+◌, ◌*◌, ◌≡◌, refl, ◌≢◌, ◌⊎◌, Bool, true, false, none, some, List, [], ◌∷◌, ◌++◌, arith, ltb,
  if◌then◌else◌,
}
use the_game_server.Timers.Rates.{has_tag, run_late, emit-subscribe, run_late-no_drift}
use the_game_server.Users.{
  Database, find_id, find_token, get_user_by_token, new_user, get_user_by_id, load, same_text,
  set_token, User, keep, returned, emplace_user,
}
use the_game_server.Users.Errors.{IsBacked, get_user_by_id_returns, get_user_by_token_raises}

abbrev second : Timer
second = record { interval = 1000; expiration_time = 5000; waiting = true }

run_late-no_drift_example :
    let s = run_late (7 ∷ 0 ∷ 300 ∷ []) (0, second) in
    (s.0 ≡ 0 + 3)
    × (s.1.expiration_time ≡ 5000 + 3 * 1000)
    × (s.1.interval ≡ 1000)
    × (s.1.waiting ≡ true)
run_late-no_drift_example = run_late-no_drift (7 ∷ 0 ∷ 300 ∷ []) 0 second refl

emit-subscribe_example :
    emit {H = ℕ} (subscribe 2 50 ((1, 40) ∷ [])) (30 ∷ [])
    ≡ emit {H = ℕ} ((1, 40) ∷ []) (30 ∷ [])
      ++ (if has_tag {H = ℕ} 2 ((1, 40) ∷ []) then [] else 50 ∷ [])
emit-subscribe_example = emit-subscribe 2 50 ((1, 40) ∷ []) (30 ∷ [])

-- A room is the number of its players.
abbrev make : ℕ → ℕ
make id = 0

abbrev has_space : ℕ → Bool
has_space players = ltb players 2

abbrev full_house : RoomManager ℕ
full_house = record { items = (1, 2) ∷ (2, 2) ∷ []; next_id = 3; threads = 4; guarded = false }

full_house-IsSound : IsSound make has_space full_house
full_house-IsSound = record { numbered = (refl, (refl, tt)); next = refl }

obtain-IsSound_example :
    let (item, m') = obtain make has_space full_house in
    IsSound make has_space m'
    × ((IsFirstFree make has_space full_house.items item × (m' ≡ full_house))
        ⊎ (All (IsFull make has_space) full_house.items
            × (item ≡ (2 + 1, make (2 + 1)))
            × (m'.items ≡ full_house.items ++ item ∷ [])))
obtain-IsSound_example = obtain-IsSound make has_space full_house (omega arith) full_house-IsSound

-- A database with two users, in which a token is one number.
abbrev table : Database ℕ
table = record {
  rows_by_id = λ d id. (id, 70 ∷ []) ∷ [];
  rows_by_token = λ d token. (7, 71 ∷ []) ∷ [];
  insert_row = λ token ip d. (d, 1, 9);
}

abbrev cached : List User
unfolding new_user set_token
cached = set_token (80 ∷ []) (new_user 8 1) ∷ []

abbrev calls : List (Call ℕ)
calls = by_id 0 7 ∷ by_token 0 (1 ∷ []) ∷ creates 3 (λ n. n ∷ []) 6 0 ∷ []

run_calls_give_example :
    let us' = run_calls table 5 calls cached in
    (v : User) × (v.id ≡ 8)
    × (v.token ≡ 80 ∷ [])
    × ((get_user_by_id table 90 0 8 us').0 ≡ returned (some v))
    × ((get_user_by_token table 90 0 (80 ∷ []) us').0 ≡ returned (some v))
unfolding cached find_id find_token new_user set_token
run_calls_give_example =
    run_calls_give table 5 90 calls 0 8 (set_token (80 ∷ []) (new_user 8 1)) cached (refl, refl, tt)
      refl

table-IsBacked : IsBacked table 0 cached
unfolding cached find_token same_text
table-IsBacked = record {
  numbered = λ id i token rows h. ground (arith, h);
  tokens = λ id i token rows u h k. ground (arith, h, k);
}

get_user_by_id_returns_example :
    ((table.rows_by_id 0 7 ≡ []) × (get_user_by_id table 9 0 7 cached ≡ (returned none, cached)))
    ⊎ ((token : List ℕ) × (rows : List (ℕ × List ℕ)) × (table.rows_by_id 0 7 ≡ (7, token) ∷ rows)
        × (get_user_by_id table 9 0 7 cached ≡ (
          returned (some (set_token token (new_user 7 9))),
          set_token token (new_user 7 9) ∷ cached,
        )))
unfolding cached find_id
get_user_by_id_returns_example = get_user_by_id_returns table 9 0 7 cached table-IsBacked refl

-- The number of the row is cached with another token.
abbrev clashing : List User
unfolding new_user set_token
clashing = set_token (80 ∷ []) (new_user 7 1) ∷ []

get_user_by_token_raises_example :
    ((get_user_by_token table 9 0 (71 ∷ []) clashing).1 ≡ clashing)
    × (find_token (71 ∷ []) clashing ≡ none)
    × ((id : ℕ) × (t : List ℕ) × (rest : List (ℕ × List ℕ)) × (table.rows_by_token 0 (71 ∷ [])
          ≡ (id, t) ∷ rest)
        × ((find_id id clashing ≢ none) ⊎ (find_token t clashing ≢ none)))
unfolding clashing get_user_by_token load keep emplace_user find_id find_token same_text
get_user_by_token_raises_example = get_user_by_token_raises table 9 0 (71 ∷ []) clashing refl
