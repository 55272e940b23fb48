-- ===== src/Buffer/History.antt =====
-- A buffer after any history of pushes.
use mathlib.Core.List.{append-nil, append_assoc}
use ops_sys.Base.{
  ℕ, zero, suc, ◌+◌, ◌-◌, ◌≤◌, ◌<◌, ◌≡◌, refl, sym, ap, ◌∙◌, some, none, List, [], ◌∷◌, ◌++◌, map,
  arith, subst, ltb, length, length-append, drop, Bool-cases, min, inl, inr,
}
use ops_sys.Buffer.{CircularBuffer, new, push, snapshot, size, latest}
use ops_sys.Buffer.Contents.{
  IsValid, Holds, enqueue, new-IsValid, push-IsValid, new-Holds, push-Holds, snapshot-Holds,
  latest-push_lem,
}

module _ {ℓ} {T : Type ℓ} where
  -- The pushes of `xs`, in order.
  unfoldable pub push_all : CircularBuffer T → List T → CircularBuffer T
  push_all b [] = b
  push_all b (x ∷ xs) = push_all (push b x) xs

  -- The last `most` items of a history.
  abbrev pub newest : ℕ → List T → List T
  newest most xs = drop (length xs - most) xs

  drop-nil : (n : ℕ) → drop {A = T} n [] ≡ []
  drop-nil zero = refl
  drop-nil (suc n) = refl

  drop-append : (n : ℕ) (xs ys : List T) → n ≤ length xs → drop n (xs ++ ys) ≡ drop n xs ++ ys
  drop-append zero xs ys h = refl
  drop-append (suc n) [] ys h = absurd (omega arith)
  drop-append (suc n) (x ∷ xs) ys h = drop-append n xs ys (omega arith)

  drop-drop_one : (n : ℕ) (xs : List T) → drop 1 (drop n xs) ≡ drop (suc n) xs
  drop-drop_one zero [] = refl
  drop-drop_one zero (x ∷ xs) = refl
  drop-drop_one (suc n) [] = refl
  drop-drop_one (suc n) (x ∷ xs) = drop-drop_one n xs

  length-drop : (n : ℕ) (xs : List T) → length (drop n xs) ≡ length xs - n
  length-drop zero xs = omega arith
  length-drop (suc n) [] = omega arith
  length-drop (suc n) (x ∷ xs) = omega (arith, length-drop n xs)

  -- Cutting a history down to its newest items is one enqueue after the other.
  enqueue-newest :
      (most : ℕ) (xs : List T) (x : T)
      → 0 < most
      → enqueue most (newest most xs) x ≡ newest most (xs ++ x ∷ [])
  enqueue-newest most xs x h = elim (Bool-cases (ltb (length (newest most xs)) most)) [
    | inl room ↦ rw room (
        sym (drop-append (length xs - most) xs (x ∷ []) (omega arith))
        ∙ ap (λ (k : ℕ). drop k (xs ++ x ∷ [])) (ground (arith, counts, cut)))
    | inr full ↦
        let shift : suc (length xs - most) ≡ length (xs ++ x ∷ []) - most =
          ground (arith, counts, cut) in
        rw (full, drop-drop_one (length xs - most) xs)
          (sym (drop-append (suc (length xs - most)) xs (x ∷ []) (ground (arith, cut)))
            ∙ ap (λ (k : ℕ). drop k (xs ++ x ∷ [])) shift)
  ]
    where
      cut : length (newest most xs) ≡ length xs - (length xs - most)
      cut = length-drop (length xs - most) xs

      counts : length (xs ++ x ∷ []) ≡ length xs + 1
      counts = length-append xs (x ∷ [])

  capacity-push : (b : CircularBuffer T) (x : T) → (push b x).capacity ≡ b.capacity
  unfolding push
  capacity-push b x = refl

  pub push_all-IsValid : (b : CircularBuffer T) (xs : List T) → IsValid b → IsValid (push_all b xs)
  unfolding push_all push
  push_all-IsValid b [] v = v
  push_all-IsValid b (x ∷ xs) v = push_all-IsValid (push b x) xs (push-IsValid b x v)

  push_all-Holds :
      (b : CircularBuffer T) (seen xs : List T)
      → IsValid b
      → Holds b (newest b.capacity seen)
      → Holds (push_all b xs) (newest b.capacity (seen ++ xs))
  unfolding push_all push
  push_all-Holds b seen [] v h = rw (append-nil seen) h
  push_all-Holds b seen (x ∷ xs) v h =
      subst (λ (ys : List T). Holds (push_all (push b x) xs) (newest b.capacity ys))
        (append_assoc seen (x ∷ []) xs)
        (push_all-Holds (push b x) (seen ++ x ∷ []) xs (push-IsValid b x v) (
          rw (capacity-push b x, ← enqueue-newest b.capacity seen x v.positive)
            (push-Holds b (newest b.capacity seen) x v h)))

  pub push_all-append :
      (b : CircularBuffer T) (xs : List T) (x : T)
      → push_all b (xs ++ x ∷ []) ≡ push (push_all b xs) x
  unfolding push_all push
  push_all-append b [] x = refl
  push_all-append b (y ∷ xs) x = push_all-append (push b y) xs x

  -- A buffer of a positive capacity gives back the newest items of its history, at most so many
  -- as it has places, in the order in which they were pushed; `size` counts them.
  pub snapshot-push_all :
      (most : ℕ) (xs : List T)
      → 0 < most
      → (snapshot (push_all (new most) xs) ≡ map some (newest most xs))
        × (size (push_all (new most) xs) ≡ min most (length xs))
  snapshot-push_all most xs h =
      let held : Holds (push_all (new most) xs) (newest most xs) =
        unfold new in
        push_all-Holds (new most) [] xs (new-IsValid most h)
          (subst (Holds (new most)) (sym (drop-nil (0 - most))) (new-Holds most)) in
      (
        snapshot-Holds (push_all (new most) xs) (newest most xs) held,
        unfold size in omega (arith, held.counted, length-drop (length xs - most) xs),
      )

  -- After any history that ends in `x`, `latest` is `x`; on a new buffer it is undefined.
  pub latest-push_all :
      (most : ℕ) (xs : List T) (x : T)
      → 0 < most
      → (latest (push_all (new most) (xs ++ x ∷ [])) ≡ some x) × (latest (new {T = T} most) ≡ none)
  latest-push_all most xs x h = (
    rw push_all-append (
        latest-push_lem (push_all (new most) xs) x
          (push_all-IsValid (new most) xs (new-IsValid most h))),
    unfold latest new in refl,
  )
