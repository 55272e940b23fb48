-- ===== src/Calls.antt =====
-- Calls of a page that await their answers, in the order of the newest first. An answer is to the call
-- at some place of the list; the code that awaited it runs up to its next await.
use ops_sys.Base.{ℕ, zero, suc, ◌+◌, Option, none, some, List, [], ◌∷◌, ◌++◌, ◌≡◌, arith}

module _ {C : Type 0} where
  -- How much the calls weigh together.
  abbrev pub sum : (C → ℕ) → List C → ℕ
  sum w [] = 0
  sum w (c ∷ cs) = w c + sum w cs

  sum-append : (w : C → ℕ) (cs ds : List C) → sum w (cs ++ ds) ≡ sum w cs + sum w ds
  sum-append w [] ds = omega arith
  sum-append w (c ∷ cs) ds = omega (arith, sum-append w cs ds)

-- A relation between the state and the weight before, and those after.
abbrev pub Change : Type 0 → Type 1
Change P = P → ℕ → P → ℕ → Type 0

-- It is kept when other calls are under way too.
abbrev pub IsLocal : {P : Type 0} → Change P → Type 0
IsLocal {P} Q = (p q : P) (n n' m k k' : ℕ) → Q p n q n' → k ≡ n + m → k' ≡ n' + m → Q p k q k'

module _ {C P : Type 0} where
  unfoldable pub answer : (C → P → Option (P × List C)) → ℕ → P → List C → Option (P × List C)
  answer respond i p [] = none
  answer respond zero p (c ∷ cs) = elim (respond c p) [
    | none ↦ none
    | some r ↦ some (r.0, r.1 ++ cs)
  ]
  answer respond (suc i) p (c ∷ cs) = elim (answer respond i p cs) [
    | none ↦ none
    | some r ↦ some (r.0, c ∷ r.1)
  ]

  abbrev pub After : Change P → (C → ℕ) → P → ℕ → Option (P × List C) → Type 0
  After Q w p n none = Unit
  After Q w p n (some r) = Q p n r.0 (sum w r.1)

  module _ (Q : Change P) (local : IsLocal Q) (w : C → ℕ) where
    first-After :
        (p : P) (n : ℕ) (cs : List C) (o : Option (P × List C))
        → After Q w p n o
        → After Q w p (n + sum w cs) (elim o [ none ↦ none | some r ↦ some (r.0, r.1 ++ cs) ])
    first-After p n cs none a = tt
    first-After p n cs (some r) a =
        local p r.0 n (sum w r.1) (sum w cs) _ _ a (omega arith) (sum-append w r.1 cs)

    later-After :
        (p : P) (n : ℕ) (c : C) (o : Option (P × List C))
        → After Q w p n o
        → After Q w p (w c + n) (elim o [ none ↦ none | some r ↦ some (r.0, c ∷ r.1) ])
    later-After p n c none a = tt
    later-After p n c (some r) a = local p r.0 n (sum w r.1) (w c) _ _ a (omega arith) (omega arith)

    -- What holds of the answer to each call holds of an answer to a list of calls.
    pub answer-After :
        (respond : C → P → Option (P × List C))
        → ((c : C) (p : P) → After Q w p (w c) (respond c p))
        → (i : ℕ) (p : P) (cs : List C) → After Q w p (sum w cs) (answer respond i p cs)
    unfolding answer
    answer-After respond each i p [] = tt
    answer-After respond each zero p (c ∷ cs) = first-After p (w c) cs (respond c p) (each c p)
    answer-After respond each (suc i) p (c ∷ cs) =
        later-After p (sum w cs) c (answer respond i p cs) (answer-After respond each i p cs)
