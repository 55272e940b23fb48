-- ===== src/Buffer/Contents.antt =====
-- A valid buffer as the list of the items that it holds, oldest first.
use native.Mathlib.Nat.{mod-lt, mod-eq_of_lt, mod_self, mod-add-mod, add-mod_right}
use ops_sys.Base.{
  ℕ, suc, ◌+◌, ◌-◌, ◌%◌, ◌≤◌, ◌<◌, ◌≡◌, refl, sym, ap, ◌∙◌, Option, some, List, [], ◌∷◌, ◌++◌, map,
  arith, ltb, dec_lt, if◌then◌else◌, length, length-append, drop, inl, inr, Bool-cases,
}
use ops_sys.Base.Arrays.{length-new_array, length-write, read-write_self}
use ops_sys.Buffer.{CircularBuffer, new, push, copy, snapshot, latest}
use ops_sys.Buffer.Window.{copy-write, copy_shift}

-- What keeps every access of the class inside its array.
pub record IsValid {ℓ} {T : Type ℓ} (b : CircularBuffer T) : Type 0 where
  pub positive : 0 < b.capacity
  pub storage : length b.buf ≡ b.capacity
  pub head_in : b.head < b.capacity
  pub count_in : b.count ≤ b.capacity
  pub filling : b.count < b.capacity → b.head ≡ b.count

-- Where the oldest item stands.
abbrev pub first {ℓ} : {T : Type ℓ} → CircularBuffer T → ℕ
first b = if ltb b.count b.capacity then 0 else b.head

back_one : (head most : ℕ) → head < most → ((head + 1) % most + most - 1) % most ≡ head
back_one head most h = elim (dec_lt (head + 1) most) [
  | yes p ↦
      rw (mod-eq_of_lt p)
        (ap (λ (k : ℕ). k % most) (omega arith) ∙ add-mod_right head most ∙ mod-eq_of_lt h)
  | no p ↦
      let e : head + 1 ≡ most = omega arith in
      let z : (head + 1) % most ≡ 0 = ap (λ (k : ℕ). k % most) e ∙ mod_self most in
      rw z (ap (λ (k : ℕ). k % most) (omega arith) ∙ mod-eq_of_lt h)
]

module _ {ℓ} {T : Type ℓ} where
  -- A new item goes behind the others, and pushes out the oldest of a full queue.
  abbrev pub enqueue : ℕ → List T → T → List T
  enqueue most q x = (if ltb (length q) most then q else drop 1 q) ++ x ∷ []

  -- The buffer holds exactly the items of `q`.
  pub record Holds (b : CircularBuffer T) (q : List T) : Type ℓ where
    pub counted : b.count ≡ length q
    pub items : copy b.buf b.capacity (first b) 0 b.count ≡ map some q

  pub new-IsValid : (most : ℕ) → 0 < most → IsValid (new {T = T} most)
  unfolding new
  new-IsValid most h = record {
    positive = h;
    storage = length-new_array T most;
    head_in = h;
    count_in = omega arith;
    filling = λ _. refl;
  }

  pub push-IsValid : (b : CircularBuffer T) (x : T) → IsValid b → IsValid (push b x)
  unfolding push
  push-IsValid b x v = ground (
    arith,
    length-write b.buf b.head x,
    mod-lt (b.head + 1) {m = b.capacity} v.positive,
    mod-eq_of_lt {n = b.head + 1} {m = b.capacity},
  )

  pub new-Holds : (most : ℕ) → Holds (new most) []
  unfolding new copy
  new-Holds most = record { counted = refl; items = refl }

  map-append : (xs ys : List T) → map some (xs ++ ys) ≡ map some xs ++ map some ys
  map-append [] ys = refl
  map-append (x ∷ xs) ys = ap (◌∷◌ (some x)) (map-append xs ys)

  first-push_room :
      (b : CircularBuffer T) (x : T) → IsValid b → b.count < b.capacity → first (push b x) ≡ 0
  unfolding push
  first-push_room b x v h =
      ground
        (arith, mod_self b.capacity, v.filling h, mod-eq_of_lt {n = b.head + 1} {m = b.capacity})

  first-push_full :
      (b : CircularBuffer T) (x : T)
      → b.count ≡ b.capacity
      → first (push b x) ≡ (b.head + 1) % b.capacity
  unfolding push
  first-push_full b x e = ground arith

  push-Holds_room :
      (b : CircularBuffer T) (q : List T) (x : T)
      → IsValid b
      → Holds b q
      → b.count < b.capacity
      → Holds (push b x) (q ++ x ∷ [])
  push-Holds_room b q x v h room = record {
    counted = unfold push in ground (arith, h.counted, length-append q (x ∷ []));
    items = rw (first-push_room b x v room, count-push) (extended ∙ sym (map-append q (x ∷ [])));
  }
    where
      count-push : (push b x).count ≡ suc b.count
      count-push = unfold push in ground arith

      from_zero : copy b.buf b.capacity 0 0 b.count ≡ map some q
      from_zero = ground (arith, h.items)

      at_head : b.head ≡ (0 + 0 + b.count) % b.capacity
      at_head = ground (arith, v.filling room, mod-eq_of_lt {n = b.count} {m = b.capacity} room)

      extended :
          copy (push b x).buf (push b x).capacity 0 0 (suc b.count) ≡ map some q ++ some x ∷ []
      extended =
          unfold push in
          copy-write b.buf b.capacity 0 0 b.count b.head x room at_head
          ∙ ap (λ (ys : List (Option T)). ys ++ some x ∷ []) from_zero

  push-Holds_full :
      (b : CircularBuffer T) (q : List T) (x : T)
      → IsValid b
      → Holds b q
      → b.count ≡ b.capacity
      → Holds (push b x) (drop 1 q ++ x ∷ [])
  push-Holds_full b [] x v h full = absurd (omega (arith, h.counted, v.positive))
  push-Holds_full b (y ∷ q) x v h full = record {
    counted = rw count-push (ground (arith, h.counted, length-append q (x ∷ [])));
    items = rw (first-push_full b x full, count-push) (extended ∙ sym (map-append q (x ∷ [])));
  }
    where
      c : ℕ
      c = length q

      count-push : (push b x).count ≡ suc c
      count-push = unfold push in ground (arith, h.counted)

      whole : copy b.buf b.capacity b.head 0 (suc c) ≡ map some (y ∷ q)
      whole = ground (arith, h.items, h.counted)

      rest : copy b.buf b.capacity ((b.head + 1) % b.capacity) 0 c ≡ map some q
      rest = copy_shift b.buf b.capacity b.head 0 c ∙ unfold copy in cc whole

      at_head : b.head ≡ ((b.head + 1) % b.capacity + 0 + c) % b.capacity
      at_head =
          sym (mod-eq_of_lt v.head_in)
          ∙ sym (add-mod_right b.head b.capacity)
          ∙ ap (λ (k : ℕ). k % b.capacity) (omega (arith, h.counted))
          ∙ sym (mod-add-mod (b.head + 1) b.capacity c)
          ∙ ap (λ (k : ℕ). k % b.capacity) (omega arith)

      extended :
          copy (push b x).buf (push b x).capacity ((b.head + 1) % b.capacity) 0 (suc c)
          ≡ map some q ++ some x ∷ []
      extended =
          unfold push in
          copy-write b.buf b.capacity ((b.head + 1) % b.capacity) 0 c b.head x
            (omega (arith, h.counted)) at_head
          ∙ ap (λ (ys : List (Option T)). ys ++ some x ∷ []) rest

  -- A push is an enqueue on what the buffer holds.
  pub push-Holds :
      (b : CircularBuffer T) (q : List T) (x : T)
      → IsValid b
      → Holds b q
      → Holds (push b x) (enqueue b.capacity q x)
  push-Holds b q x v h = elim (Bool-cases (ltb (length q) b.capacity)) [
    | inl room ↦ rw room (push-Holds_room b q x v h (ground (arith, h.counted)))
    | inr full ↦ rw full (push-Holds_full b q x v h (ground (arith, h.counted)))
  ]

  -- The methods that read, on a buffer that holds `q`.
  pub snapshot-Holds : (b : CircularBuffer T) (q : List T) → Holds b q → snapshot b ≡ map some q
  unfolding snapshot
  snapshot-Holds b [] h = ground (arith, h.counted)
  snapshot-Holds b (x ∷ q) h = ground (arith, h.counted, h.items)

  pub latest-push_lem : (b : CircularBuffer T) (x : T) → IsValid b → latest (push b x) ≡ some x
  unfolding latest push
  latest-push_lem b x v =
      ground (arith, back_one b.head b.capacity v.head_in, read-write_self b.buf b.head x)
