-- ===== src/Users/Errors.antt =====
-- When src/UsersCache.cpp raises its errors, and what a user that it gives is found by.
use the_game_server.Base.{
  ℕ, ◌≡◌, refl, ap, ◌∙◌, ◌≢◌, ◌⊎◌, inl, inr, Option, none, some, List, [], ◌∷◌, arith, sym,
}
use the_game_server.Users.{
  Database, keep, User, emplace_user, get_user_by_id, bad_insert, find_id, find_token, load,
  Outcome, returned, set_token, new_user, get_user_by_token, touch,
}
use the_game_server.Users.Cache.{token_found}

-- The errors of `keep`: the number or the token is taken, and the cache stays as it was.
keep_error :
    (u : User) (us : List User)
    → (keep u us).0 ≡ bad_insert
    → ((find_id u.id us ≢ none) ⊎ (find_token u.token us ≢ none)) × ((keep u us).1 ≡ us)
unfolding keep emplace_user
keep_error u us h = found (find_id u.id us) (find_token u.token us) h
  where
    found :
        (x y : Option User)
        → let r =
            elim (elim x as (λ z. Option (List User)) [
              | some _ ↦ none
              | none ↦ elim y as (λ z. Option (List User)) [ some _ ↦ none | none ↦ some (u ∷ us) ]
            ])
              as (λ z. Outcome (Option User) × List User) [
                | some us' ↦ (returned (some u), us')
                | none ↦ (bad_insert, us)
              ] in
          r.0 ≡ bad_insert → ((x ≢ none) ⊎ (y ≢ none)) × (r.1 ≡ us)
    found none none h = cc
    found none (some v) h = (inr (λ e. cc), refl)
    found (some v) y h = (inl (λ e. cc), refl)

keep_done :
    (u : User) (us : List User)
    → find_id u.id us ≡ none
    → find_token u.token us ≡ none
    → keep u us ≡ (returned (some u), u ∷ us)
unfolding keep emplace_user
keep_done u us h k = ground (arith, h, k)

-- A token that only a user with a number could have is not cached when that user is not.
no_token :
    (token : List ℕ) (us : List User) (id : ℕ)
    → ((u : User) → find_token token us ≡ some u → u.id ≡ id)
    → find_id id us ≡ none
    → find_token token us ≡ none
no_token token us id only absent = cases (find_token token us) refl
  where
    cases : (x : Option User) → find_token token us ≡ x → find_token token us ≡ none
    cases none e = e
    cases (some u) e =
        ground (arith, token_found token us u e (ap (λ i. find_id i us) (only u e) ∙ absent))

module _ {D : Type 0} (db : Database D) (now : ℕ) where
  uncached :
      (d : D) (id : ℕ) (us : List User)
      → find_id id us ≡ none
      → get_user_by_id db now d id us ≡ load db now (db.rows_by_id d id) us
  unfolding get_user_by_id
  uncached d id us h = ground (arith, h)

  load-none : (us : List User) → load db now [] us ≡ (returned none, us)
  unfolding load
  load-none us = refl

  load-some :
      (id : ℕ) (token : List ℕ) (rows : List (ℕ × List ℕ)) (us : List User)
      → find_id id us ≡ none
      → find_token token us ≡ none
      → load db now ((id, token) ∷ rows) us ≡ (
        returned (some (set_token token (new_user id now))),
        set_token token (new_user id now) ∷ us,
      )
  unfolding load set_token new_user
  load-some id token rows us h k = keep_done (set_token token (new_user id now)) us h k

  load_error :
      (id : ℕ) (token : List ℕ) (rows : List (ℕ × List ℕ)) (us : List User)
      → (load db now ((id, token) ∷ rows) us).0 ≡ bad_insert
      → ((find_id id us ≢ none) ⊎ (find_token token us ≢ none))
        × ((load db now ((id, token) ∷ rows) us).1 ≡ us)
  unfolding load set_token new_user
  load_error id token rows us h = keep_error (set_token token (new_user id now)) us h

  token_uncached :
      (d : D) (token : List ℕ) (us : List User)
      → find_token token us ≡ none
      → get_user_by_token db now d token us ≡ load db now (db.rows_by_token d token) us
  unfolding get_user_by_token
  token_uncached d token us h = ground (arith, h)

  token_cached :
      (d : D) (token : List ℕ) (us : List User) (u : User)
      → find_token token us ≡ some u
      → (get_user_by_token db now d token us).0 ≡ returned (some (touch now u))
  unfolding get_user_by_token touch
  token_cached d token us u h = ground (arith, h)

module _ {D : Type 0} (db : Database D) where
  -- The database gives for a number the row of that number, and a token that is cached is in the database for
  -- the number that it is cached with.
  pub record IsBacked (d : D) (us : List User) : Type 0 where
    pub numbered :
        (id i : ℕ) (token : List ℕ) (rows : List (ℕ × List ℕ))
        → db.rows_by_id d id ≡ (i, token) ∷ rows
        → i ≡ id
    pub tokens :
        (id i : ℕ) (token : List ℕ) (rows : List (ℕ × List ℕ)) (u : User)
        → db.rows_by_id d id ≡ (i, token) ∷ rows
        → find_token token us ≡ some u
        → u.id ≡ id

  -- Where the database backs the cache, a query by a number never raises its error: a user that is not cached
  -- is loaded with the token of its row and is cached, and where there is no row there is no user.
  pub get_user_by_id_returns :
      (now : ℕ) (d : D) (id : ℕ) (us : List User)
      → IsBacked d us
      → find_id id us ≡ none
      → ((db.rows_by_id d id ≡ []) × (get_user_by_id db now d id us ≡ (returned none, us)))
        ⊎ ((token : List ℕ) × (rows : List (ℕ × List ℕ)) × (db.rows_by_id d id ≡ (id, token) ∷ rows)
            × (get_user_by_id db now d id us ≡ (
              returned (some (set_token token (new_user id now))),
              set_token token (new_user id now) ∷ us,
            )))
  get_user_by_id_returns now d id us backed absent = loaded (db.rows_by_id d id) refl
    where
      asked : get_user_by_id db now d id us ≡ load db now (db.rows_by_id d id) us
      asked = uncached db now d id us absent

      loaded :
          (rows : List (ℕ × List ℕ))
          → db.rows_by_id d id ≡ rows
          → ((db.rows_by_id d id ≡ []) × (get_user_by_id db now d id us ≡ (returned none, us)))
            ⊎ ((token : List ℕ) × (rest : List (ℕ × List ℕ)) × (db.rows_by_id d id
                  ≡ (id, token) ∷ rest)
                × (get_user_by_id db now d id us ≡ (
                  returned (some (set_token token (new_user id now))),
                  set_token token (new_user id now) ∷ us,
                )))
      loaded [] e = inl (e, asked ∙ ap (λ r. load db now r us) e ∙ load-none db now us)
      loaded ((i, token) ∷ rest) e =
          let same = backed.numbered id i token rest e in
          let row = e ∙ ap (λ j. (j, token) ∷ rest) same in
          inr (
            token,
            rest,
            row,
            asked
                ∙ ap (λ r. load db now r us) row
                ∙ load-some db now id token rest us absent
                    (no_token token us id (λ u h. backed.tokens id i token rest u e h) absent),
          )

  -- A query by a token raises its error only where the token is not cached, while the number or the token of the
  -- row that the database gives is; the cache is left as it was.
  pub get_user_by_token_raises :
      (now : ℕ) (d : D) (token : List ℕ) (us : List User)
      → (get_user_by_token db now d token us).0 ≡ bad_insert
      → ((get_user_by_token db now d token us).1 ≡ us)
        × (find_token token us ≡ none)
        × ((id : ℕ) × (t : List ℕ) × (rest : List (ℕ × List ℕ)) × (db.rows_by_token d token
              ≡ (id, t) ∷ rest)
            × ((find_id id us ≢ none) ⊎ (find_token t us ≢ none)))
  get_user_by_token_raises now d token us h =
      cases (find_token token us) refl (db.rows_by_token d token) refl
    where
      asked :
          find_token token us ≡ none
          → get_user_by_token db now d token us ≡ load db now (db.rows_by_token d token) us
      asked = token_uncached db now d token us

      cases :
          (x : Option User)
          → find_token token us ≡ x
          → (rows : List (ℕ × List ℕ)) → db.rows_by_token d token ≡ rows
          → ((get_user_by_token db now d token us).1 ≡ us)
            × (find_token token us ≡ none)
            × ((id : ℕ) × (t : List ℕ) × (rest : List (ℕ × List ℕ)) × (db.rows_by_token d token
                  ≡ (id, t) ∷ rest)
                × ((find_id id us ≢ none) ⊎ (find_token t us ≢ none)))
      cases (some u) e rows e' = ground (arith, token_cached db now d token us u e, h)
      cases none e [] e' =
          ground (arith, asked e, ap (λ r. load db now r us) e', load-none db now us, h)
      cases none e ((id, t) ∷ rest) e' =
          let loads = asked e ∙ ap (λ r. load db now r us) e' in
          let raised =
            load_error db now id t rest us
              (ap (λ (r : Outcome (Option User) × List User). r.0) (sym loads) ∙ h) in
          (
            ap (λ (r : Outcome (Option User) × List User). r.1) loads ∙ raised.1,
            e,
            (id, t, rest, e', raised.0),
          )
