-- ===== src/Counting.antt =====
-- How many members of a list pass a test, and what sets of pointers keep of their sizes. This stands for
-- no code; the theorems on src/Room.cpp use it.
use the_game_server.Base.{
  ℕ, ◌+◌, ◌≤◌, ◌≡◌, refl, Bool, false, not, ◌&&◌, List, [], ◌∷◌, ◌++◌, arith, leb, ◌==◌,
  if◌then◌else◌, length, contains, insert, erase, count,
}

unfoldable pub number : (ℕ → Bool) → List ℕ → ℕ
number test [] = 0
number test (p ∷ ps) = (if test p then 1 else 0) + number test ps

pub number-erase :
    (test : ℕ → Bool) (p : ℕ) (ps : List ℕ)
    → number test (erase p ps) + (if test p then count p ps else 0) ≡ number test ps
unfolding number erase count
number-erase test p [] = ground arith
number-erase test p (q ∷ ps) = ground (arith, number-erase test p ps)

-- Only the members count.
pub number-ext :
    (test test' : ℕ → Bool) (ps : List ℕ)
    → ((p : ℕ) → 1 ≤ count p ps → test p ≡ test' p)
    → number test ps ≡ number test' ps
unfolding number count
number-ext test test' [] h = refl
number-ext test test' (p ∷ ps) h =
    ground (arith, h p, number-ext test test' ps (λ q m. h q (ground arith)))

pub number-except :
    (test test' : ℕ → Bool) (p : ℕ) (ps : List ℕ)
    → ((q : ℕ) → test' q ≡ (if p == q then false else test q))
    → number test' ps + (if test p then count p ps else 0) ≡ number test ps
unfolding number count
number-except test test' p [] h = ground arith
number-except test test' p (q ∷ ps) h = ground (arith, h q, number-except test test' p ps h)

pub length-erase : (p : ℕ) (ps : List ℕ) → length (erase p ps) + count p ps ≡ length ps
unfolding erase count
length-erase p [] = refl
length-erase p (q ∷ ps) = ground (arith, length-erase p ps)

pub count-append : (p : ℕ) (ps qs : List ℕ) → count p (ps ++ qs) ≡ count p ps + count p qs
unfolding count
count-append p [] qs = omega arith
count-append p (q ∷ ps) qs = ground (arith, count-append p ps qs)

pub count-contains : (p : ℕ) (ps : List ℕ) → contains p ps ≡ leb 1 (count p ps)
unfolding count contains
count-contains p [] = refl
count-contains p (q ∷ ps) = ground (arith, count-contains p ps)

pub count-insert :
    (p q : ℕ) (ps : List ℕ)
    → count q (insert p ps) ≡ (if p == q && not (contains p ps) then count q ps + 1 else count q ps)
unfolding insert count
count-insert p q ps = ground arith

pub length-insert :
    (p : ℕ) (ps : List ℕ)
    → length (insert p ps) ≡ (if contains p ps then length ps else length ps + 1)
unfolding insert
length-insert p ps = ground arith

pub number-insert :
    (test : ℕ → Bool) (p : ℕ) (ps : List ℕ)
    → contains p ps ≡ false
    → number test (insert p ps) ≡ (if test p then 1 else 0) + number test ps
unfolding insert number
number-insert test p ps h = ground arith
