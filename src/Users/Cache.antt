-- ===== src/Users/Cache.antt =====
-- The cache of users of src/UsersCache.cpp: what is in it, and when an operation raises its error.
use the_game_server.Base.{ap, subst, ◌∙◌, Bool-cases, inl, inr, if◌then◌else◌}
use the_game_server.Base.{
  ℕ, ◌≡◌, refl, ◌≢◌, true, Option, none, some, List, [], ◌∷◌, arith, ◌==◌, if_either, ◌+◌,
}
use the_game_server.Users.{
  Database, User, find_id, find_token, keep, same_text, touch_id, emplace_user, get_user_by_id,
  load, touch, Outcome, set_token, new_user, returned, bad_insert, create_user, get_user_by_token,
  draw_user,
}

-- No two users have a number or a token in common.
abbrev pub IsUnique : List User → Type 0
IsUnique [] = Unit
IsUnique (u ∷ us) = (find_id u.id us ≡ none) × (find_token u.token us ≡ none) × IsUnique us

pub same_text_eq : (xs ys : List ℕ) → same_text xs ys ≡ true → xs ≡ ys
unfolding same_text
same_text_eq [] [] h = refl
same_text_eq [] (y ∷ ys) h = cc
same_text_eq (x ∷ xs) [] h = cc
same_text_eq (x ∷ xs) (y ∷ ys) h = ground (arith, same_text_eq xs ys (ground (arith, h)))

pub same_text_refl : (xs : List ℕ) → same_text xs xs ≡ true
unfolding same_text
same_text_refl [] = refl
same_text_refl (x ∷ xs) = ground (arith, same_text_refl xs)

-- A user found by its token is also found by its number.
pub token_found :
    (token : List ℕ) (us : List User) (u : User)
    → find_token token us ≡ some u
    → find_id u.id us ≢ none
unfolding find_token find_id
token_found token [] u h = cc
token_found token (v ∷ us) u h = ground (arith, h, token_found token us u)

pub keep-IsUnique : (u : User) (us : List User) → IsUnique us → IsUnique (keep u us).1
unfolding keep emplace_user
keep-IsUnique u us unique = found (find_id u.id us) refl (find_token u.token us) refl
  where
    found :
        (x : Option User)
        → find_id u.id us ≡ x
        → (y : Option User) → find_token u.token us ≡ y
        → IsUnique
            (elim (elim x as (λ z. Option (List User)) [
              | some _ ↦ none
              | none ↦ elim y as (λ z. Option (List User)) [ some _ ↦ none | none ↦ some (u ∷ us) ]
            ])
              as (λ z. Outcome (Option User) × List User) [
                | some us' ↦ (returned (some u), us')
                | none ↦ (bad_insert, us)
              ]).1
    found none e none e' = (e, e', unique)
    found none e (some v) e' = unique
    found (some v) e y e' = unique

touch_find_id :
    (now id i : ℕ) (us : List User) → find_id i us ≡ none → find_id i (touch_id now id us) ≡ none
unfolding find_id touch_id touch
touch_find_id now id i [] h = refl
touch_find_id now id i (u ∷ us) h = ground (arith, h, touch_find_id now id i us)

touch_find_token :
    (now id : ℕ) (token : List ℕ) (us : List User)
    → find_token token us ≡ none
    → find_token token (touch_id now id us) ≡ none
unfolding find_token touch_id touch
touch_find_token now id token [] h = refl
touch_find_token now id token (u ∷ us) h = ground (arith, h, touch_find_token now id token us)

touch-IsUnique : (now id : ℕ) (us : List User) → IsUnique us → IsUnique (touch_id now id us)
unfolding touch_id touch
touch-IsUnique now id [] h = h
touch-IsUnique now id (u ∷ us) (a, b, rest) =
    if_either IsUnique (u.id == id) (touch now u ∷ touch_id now id us) (u ∷ touch_id now id us)
      (λ e. (
        touch_find_id now id u.id us a,
        touch_find_token now id u.token us b,
        touch-IsUnique now id us rest,
      ))
      (λ e. (
        touch_find_id now id u.id us a,
        touch_find_token now id u.token us b,
        touch-IsUnique now id us rest,
      ))

-- A user found by its number has it.
find_id-id : (id : ℕ) (us : List User) (u : User) → find_id id us ≡ some u → u.id ≡ id
unfolding find_id
find_id-id id [] u h = cc
find_id-id id (v ∷ us) u h = ground (arith, h, find_id-id id us u)

-- With one user for a token, a user found by its number is found by its token.
find_token_own :
    (id : ℕ) (us : List User) (u : User)
    → IsUnique us
    → find_id id us ≡ some u
    → find_token u.token us ≡ some u
unfolding find_id find_token
find_token_own id [] u unique h = cc
find_token_own id (v ∷ us) u (a, b, rest) h = elim (Bool-cases (v.id == id)) [
  | inl same ↦
      (let e : v ≡ u = ground (arith, h, same) in
        ground (arith, ap (λ (x : User). x.token) e, same_text_refl u.token, h, same))
  | inr other ↦
      (let later = find_token_own id us u rest (ground (arith, h, other)) in
        elim (Bool-cases (same_text v.token u.token)) [
          | inl clash ↦
              ground
                (arith, b, later, ap (λ t. find_token t us) (same_text_eq v.token u.token clash))
          | inr apart ↦ ground (arith, later, apart)
        ])
]

-- The users of a cache are still in another one, with their tokens.
abbrev pub AreKept : List User → List User → Type 0
AreKept us us' =
    (id : ℕ) (u : User)
    → find_id id us ≡ some u
    → (u' : User) × (find_id id us' ≡ some u') × (u'.token ≡ u.token)

find_id-touch_id :
    (now i id : ℕ) (us : List User) (u : User)
    → find_id id us ≡ some u
    → find_id id (touch_id now i us) ≡ some (if id == i then touch now u else u)
unfolding find_id touch_id touch
find_id-touch_id now i id [] u h = cc
find_id-touch_id now i id (v ∷ us) u h = ground (arith, h, find_id-touch_id now i id us u)

touch_id-AreKept : (now i : ℕ) (us : List User) → AreKept us (touch_id now i us)
unfolding touch
touch_id-AreKept now i us id u h =
    (if id == i then touch now u else u, find_id-touch_id now i id us u h, ground arith)

emplace_user-AreKept : (u : User) (us : List User) → find_id u.id us ≡ none → AreKept us (u ∷ us)
unfolding find_id
emplace_user-AreKept u us absent id v h = elim (Bool-cases (u.id == id)) [
  | inl same ↦
      (let e : u.id ≡ id = ground (arith, same) in
        ground (arith, h, absent, ap (λ i. find_id i us) e))
  | inr other ↦ (v, ground (arith, h, other), refl)
]

keep-AreKept : (u : User) (us : List User) → AreKept us (keep u us).1
unfolding keep emplace_user
keep-AreKept u us = found (find_id u.id us) refl (find_token u.token us)
  where
    found :
        (x : Option User)
        → find_id u.id us ≡ x
        → (y : Option User)
        → AreKept us
            (elim (elim x as (λ z. Option (List User)) [
              | some _ ↦ none
              | none ↦ elim y as (λ z. Option (List User)) [ some _ ↦ none | none ↦ some (u ∷ us) ]
            ])
              as (λ z. Outcome (Option User) × List User) [
                | some us' ↦ (returned (some u), us')
                | none ↦ (bad_insert, us)
              ]).1
    found none e none = emplace_user-AreKept u us e
    found none e (some v) = λ id w h. (w, h, refl)
    found (some v) e y = λ id w h. (w, h, refl)

-- What a call does to the cache.
data Moves : List User → List User → Type 0 where
  stays : (us : List User) → Moves us us
  touches : (now id : ℕ) (us : List User) → Moves us (touch_id now id us)
  keeps : (u : User) (us : List User) → Moves us (keep u us).1

Moves-IsUnique : {us us' : List User} → Moves us us' → IsUnique us → IsUnique us'
Moves-IsUnique (stays us) h = h
Moves-IsUnique (touches now id us) h = touch-IsUnique now id us h
Moves-IsUnique (keeps u us) h = keep-IsUnique u us h

Moves-AreKept : {us us' : List User} → Moves us us' → AreKept us us'
Moves-AreKept (stays us) = λ id w h. (w, h, refl)
Moves-AreKept (touches now id us) = touch_id-AreKept now id us
Moves-AreKept (keeps u us) = keep-AreKept u us

module _ {D : Type 0} (db : Database D) (now : ℕ) where
  load-Moves : (rows : List (ℕ × List ℕ)) (us : List User) → Moves us (load db now rows us).1
  unfolding load
  load-Moves [] us = stays us
  load-Moves ((id, token) ∷ rows) us = keeps (set_token token (new_user id now)) us

  by_id-Moves : (d : D) (id : ℕ) (us : List User) → Moves us (get_user_by_id db now d id us).1
  unfolding get_user_by_id
  by_id-Moves d id us = found (find_id id us)
    where
      found :
          (x : Option User)
          → Moves us
              (elim x as (λ z. Outcome (Option User) × List User) [
                | some user ↦ (returned (some (touch now user)), touch_id now id us)
                | none ↦ load db now (db.rows_by_id d id) us
              ]).1
      found none = load-Moves (db.rows_by_id d id) us
      found (some u) = touches now id us

  by_token-Moves :
      (d : D) (token : List ℕ) (us : List User) → Moves us (get_user_by_token db now d token us).1
  unfolding get_user_by_token
  by_token-Moves d token us = found (find_token token us)
    where
      found :
          (x : Option User)
          → Moves us
              (elim x as (λ z. Outcome (Option User) × List User) [
                | some user ↦ (returned (some (touch now user)), touch_id now user.id us)
                | none ↦ load db now (db.rows_by_token d token) us
              ]).1
      found none = load-Moves (db.rows_by_token d token) us
      found (some u) = touches now u.id us

  -- What a call gives: the cache after it, if `create` ends.
  abbrev pub cache_after : Option (Outcome (Option User) × List User) → List User → List User
  cache_after none us = us
  cache_after (some r) us = r.1

  create-Moves :
      (fuel : ℕ) (random : ℕ → List ℕ) (ip : ℕ) (d : D) (us : List User)
      → Moves us (cache_after (create_user db now fuel random ip d us) us)
  unfolding create_user
  create-Moves fuel random ip d us = drawn (draw_user db now fuel random 0 ip d us)
    where
      drawn :
          (x : Option (ℕ × List ℕ × D))
          → Moves us (
              cache_after
                (elim x as (λ z. Option (Outcome (Option User) × List User)) [
                  | none ↦ none
                  | some (id, token, _) ↦ some (keep (set_token token (new_user id now)) us)
                ])
                us)
      drawn none = stays us
      drawn (some (id, token, _)) = keeps (set_token token (new_user id now)) us

  found_by_id :
      (d : D) (id : ℕ) (us : List User) (u : User)
      → find_id id us ≡ some u
      → (get_user_by_id db now d id us).0 ≡ returned (some (touch now u))
  unfolding get_user_by_id
  found_by_id d id us u h = ground (arith, h)

  found_by_token :
      (d : D) (token : List ℕ) (us : List User) (u : User)
      → find_token token us ≡ some u
      → (get_user_by_token db now d token us).0 ≡ returned (some (touch now u))
  unfolding get_user_by_token
  found_by_token d token us u h = ground (arith, h)

-- The calls of the cache, each with the state of the database at the time.
pub data Call (D : Type 0) : Type 0 where
  by_id : D → ℕ → Call D
  by_token : D → List ℕ → Call D
  creates : ℕ → (ℕ → List ℕ) → ℕ → D → Call D

module _ {D : Type 0} (db : Database D) where
  abbrev pub call : ℕ → Call D → List User → List User
  unfolding get_user_by_id get_user_by_token create_user
  call now (by_id d id) us = (get_user_by_id db now d id us).1
  call now (by_token d token) us = (get_user_by_token db now d token us).1
  call now (creates fuel random ip d) us =
      cache_after db now (create_user db now fuel random ip d us) us

  unfoldable pub run_calls : ℕ → List (Call D) → List User → List User
  run_calls now [] us = us
  run_calls now (c ∷ cs) us = run_calls (now + 1) cs (call now c us)

  call-Moves : (now : ℕ) (c : Call D) (us : List User) → Moves us (call now c us)
  unfolding call get_user_by_id get_user_by_token create_user
  call-Moves now (by_id d id) us = by_id-Moves db now d id us
  call-Moves now (by_token d token) us = by_token-Moves db now d token us
  call-Moves now (creates fuel random ip d) us = create-Moves db now fuel random ip d us

  run_calls-AreKept :
      (now : ℕ) (cs : List (Call D)) (us : List User)
      → IsUnique us
      → IsUnique (run_calls now cs us) × AreKept us (run_calls now cs us)
  unfolding run_calls
  run_calls-AreKept now [] us h = (h, λ id w e. (w, e, refl))
  run_calls-AreKept now (c ∷ cs) us h =
      let m = call-Moves now c us in
      let (unique, kept) = run_calls-AreKept (now + 1) cs (call now c us) (Moves-IsUnique m h) in
      (
        unique,
        λ id u e.
            (let (v, ev, tv) = Moves-AreKept m id u e in
              let (w, ew, tw) = kept id v ev in (w, ew, tw ∙ tv)),
      )

  -- In a cache with no two users of one number or token, a user that is cached is given for good: after
  -- any calls, whatever the database answers to them and whichever of them raise their error, the query
  -- by its number and the query by its token both return one user, with that number and that token,
  -- whatever is in the database.
  pub run_calls_give :
      (now later : ℕ) (cs : List (Call D)) (d : D) (id : ℕ) (u : User) (us : List User)
      → IsUnique us
      → find_id id us ≡ some u
      → let us' = run_calls now cs us in
        (v : User) × (v.id ≡ id)
        × (v.token ≡ u.token)
        × ((get_user_by_id db later d id us').0 ≡ returned (some v))
        × ((get_user_by_token db later d u.token us').0 ≡ returned (some v))
  unfolding touch
  run_calls_give now later cs d id u us h e =
      let us' = run_calls now cs us in
      let (unique, kept) = run_calls-AreKept now cs us h in
      let (v, ev, tv) = kept id u e in
      let own = subst (λ t. find_token t us' ≡ some v) tv (find_token_own id us' v unique ev) in
      (
        touch later v,
        find_id-id id us' v ev,
        tv,
        found_by_id db later d id us' v ev,
        found_by_token db later d u.token us' v own,
      )
