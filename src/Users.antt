-- ===== src/Users.antt =====
-- The users and their cache: src/User.cpp, src/UsersCache.cpp and `randomString` of src/util.cpp. The cache is
-- the list of its users; the mutexes make each operation one step. The database is a parameter.
pub mod Cache
pub mod Errors
use the_game_server.Base.{
  ℕ, zero, suc, ◌+◌, ◌-◌, ◌*◌, ◌/◌, ◌%◌, ◌^◌, ◌≤◌, ◌<◌, min, max, ◌≡◌, refl, sym, ap, subst, ◌∙◌,
  ◌≢◌, ◌↔◌, ◌⊎◌, inl, inr, Bool, true, false, not, ◌&&◌, ◌||◌, Option, none, some, List, [], ◌∷◌,
  ◌++◌, map, arith, ltb, leb, ◌==◌, if◌then◌else◌, Bool-cases, Option-cases, length, take, drop,
  All, contains, insert, erase, count,
}

pub record User : Type 0 where
  pub id : ℕ
  pub token : List ℕ
  pub last_access : ℕ
  pub modified : Bool
  pub session : Option ℕ

-- `std::make_shared<User>(id)`, at a time, and `setToken`.
unfoldable pub new_user : ℕ → ℕ → User
new_user id now = record { id = id; token = []; last_access = now; modified = true; session = none }

unfoldable pub set_token : List ℕ → User → User
set_token token user = record user { token = token; modified = true }

unfoldable pub touch : ℕ → User → User
touch now user = record user { last_access = now }

-- `==` of two texts.
unfoldable pub same_text : List ℕ → List ℕ → Bool
same_text [] [] = true
same_text [] (y ∷ ys) = false
same_text (x ∷ xs) [] = false
same_text (x ∷ xs) (y ∷ ys) = x == y && same_text xs ys

-- The database as the cache uses it: the rows of a query by number and by token, and what an insertion leaves
-- with the number of rows that it wrote and the number of the new row.
pub record Database (D : Type 0) : Type 0 where
  pub rows_by_id : D → ℕ → List (ℕ × List ℕ)
  pub rows_by_token : D → List ℕ → List (ℕ × List ℕ)
  pub insert_row : List ℕ → ℕ → D → D × ℕ × ℕ

-- `throw std::runtime_error("Bad insert ...")`
pub data Outcome (A : Type 0) : Type 0 where
  returned : A → Outcome A
  bad_insert : Outcome A

unfoldable pub find_id : ℕ → List User → Option User
find_id id [] = none
find_id id (u ∷ us) = let rest = find_id id us in if u.id == id then some u else rest

unfoldable pub find_token : List ℕ → List User → Option User
unfolding same_text
find_token token [] = none
find_token token (u ∷ us) =
    let rest = find_token token us in if same_text u.token token then some u else rest

-- `modify(it, User::Touch())` of the user with a number.
unfoldable pub touch_id : ℕ → ℕ → List User → List User
unfolding touch
touch_id now id [] = []
touch_id now id (u ∷ us) =
    let rest = touch_id now id us in if u.id == id then touch now u ∷ rest else u ∷ rest

-- `emplace`: no two users have a number or a token in common.
unfoldable pub emplace_user : User → List User → Option (List User)
unfolding find_id find_token
emplace_user user us = elim (find_id user.id us) [
  | some _ ↦ none
  | none ↦ elim (find_token user.token us) [ some _ ↦ none | none ↦ some (user ∷ us) ]
]

-- A new user in the cache, or the error.
unfoldable pub keep : User → List User → Outcome (Option User) × List User
unfolding emplace_user
keep user us = elim (emplace_user user us) [
  | some us' ↦ (returned (some user), us')
  | none ↦ (bad_insert, us)
]

module _ {D : Type 0} (db : Database D) (now : ℕ) where
  -- The first row of a query.
  unfoldable pub load : List (ℕ × List ℕ) → List User → Outcome (Option User) × List User
  unfolding new_user set_token keep
  load [] us = (returned none, us)
  load ((id, token) ∷ rows) us = keep (set_token token (new_user id now)) us

  unfoldable pub get_user_by_id : D → ℕ → List User → Outcome (Option User) × List User
  unfolding find_id touch_id touch load
  get_user_by_id d id us = elim (find_id id us) [
    | some user ↦ (returned (some (touch now user)), touch_id now id us)
    | none ↦ load (db.rows_by_id d id) us
  ]

  unfoldable pub get_user_by_token : D → List ℕ → List User → Outcome (Option User) × List User
  unfolding find_token touch_id touch load
  get_user_by_token d token us = elim (find_token token us) [
    | some user ↦ (returned (some (touch now user)), touch_id now user.id us)
    | none ↦ load (db.rows_by_token d token) us
  ]

  -- The loop of `create`, for the tokens that `randomString` gives from one on: a token that is cached, or
  -- whose insertion writes no row or gives the number 0, is tried no more.
  unfoldable pub draw_user : ℕ → (ℕ → List ℕ) → ℕ → ℕ → D → List User → Option (ℕ × List ℕ × D)
  draw_user zero random n ip d us = none
  draw_user (suc fuel) random n ip d us = elim (find_token (random n) us) [
    | some _ ↦ draw_user fuel random (n + 1) ip d us
    | none ↦
        (let (d', rows, id) = db.insert_row (random n) ip d in
          let rest = draw_user fuel random (n + 1) ip d' us in
          if rows == 0 || id == 0 then rest else some (id, random n, d'))
  ]

  unfoldable pub create_user :
      ℕ → (ℕ → List ℕ) → ℕ → D → List User → Option (Outcome (Option User) × List User)
  unfolding draw_user new_user set_token keep
  create_user fuel random ip d us = elim (draw_user fuel random 0 ip d us) [
    | none ↦ none
    | some (id, token, _) ↦ some (keep (set_token token (new_user id now)) us)
  ]
