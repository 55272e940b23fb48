-- ===== src/Base/Arrays.antt =====
-- A JavaScript array of optional items: `none` is `undefined`, a hole as well as a read outside.
use Prim.Native.Nat.{ℕ, zero, suc, ◌<◌}
use mathlib.Core.Path.{◌≡◌, refl, ap}
use mathlib.Core.Logic.{◌≢◌}
use mathlib.Core.List.{List, [], ◌∷◌}
use mathlib.Core.Option.{Option, none, some}
use native.Mathlib.Omega.{arith}
use ops_sys.Base.Lists.{length}

module _ {ℓ} {A : Type ℓ} where
  -- `new Array(n)`
  unfoldable pub new_array : ℕ → List (Option A)
  new_array zero = []
  new_array (suc n) = none ∷ new_array n

  -- `a[i]`
  unfoldable pub read : List (Option A) → ℕ → Option A
  read [] i = none
  read (x ∷ xs) zero = x
  read (x ∷ xs) (suc i) = read xs i

  -- `a[i] = v`, which makes the array longer where `i` is outside.
  unfoldable pub write : List (Option A) → ℕ → A → List (Option A)
  write [] zero v = some v ∷ []
  write [] (suc i) v = none ∷ write [] i v
  write (x ∷ xs) zero v = some v ∷ xs
  write (x ∷ xs) (suc i) v = x ∷ write xs i v

  pub length-write :
      (xs : List (Option A)) (i : ℕ) (v : A) → i < length xs → length (write xs i v) ≡ length xs
  unfolding write
  length-write [] i v h = absurd (omega arith)
  length-write (x ∷ xs) zero v h = refl
  length-write (x ∷ xs) (suc i) v h = ap suc (length-write xs i v (omega arith))

  pub read-write_self : (xs : List (Option A)) (i : ℕ) (v : A) → read (write xs i v) i ≡ some v
  unfolding read write
  read-write_self [] zero v = refl
  read-write_self [] (suc i) v = read-write_self [] i v
  read-write_self (x ∷ xs) zero v = refl
  read-write_self (x ∷ xs) (suc i) v = read-write_self xs i v

  pub read-write_ne :
      (xs : List (Option A)) {i j : ℕ} (v : A) → i ≢ j → read (write xs i v) j ≡ read xs j
  unfolding read write
  read-write_ne [] {i = zero} {j = zero} v h = absurd (h refl)
  read-write_ne [] {i = zero} {j = suc j} v h = refl
  read-write_ne [] {i = suc i} {j = zero} v h = refl
  read-write_ne [] {i = suc i} {j = suc j} v h = read-write_ne [] v (λ e. h (ap suc e))
  read-write_ne (x ∷ xs) {i = zero} {j = zero} v h = absurd (h refl)
  read-write_ne (x ∷ xs) {i = zero} {j = suc j} v h = refl
  read-write_ne (x ∷ xs) {i = suc i} {j = zero} v h = refl
  read-write_ne (x ∷ xs) {i = suc i} {j = suc j} v h = read-write_ne xs v (λ e. h (ap suc e))

pub length-new_array {ℓ} : (A : Type ℓ) (n : ℕ) → length (new_array {A = A} n) ≡ n
unfolding new_array
length-new_array A zero = refl
length-new_array A (suc n) = ap suc (length-new_array A n)
