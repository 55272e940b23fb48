-- ===== src/Buffer/Window.antt =====
-- The loop of `snapshot` as a window that goes round the array.
use native.Mathlib.Nat.{mod-add-mod, mod-eq_of_lt, mod-eq-sub-mod, mod-lt}
use native.Mathlib.Decide.{dec_lt}
use ops_sys.Base.{
  ℕ, zero, suc, ◌+◌, ◌-◌, ◌%◌, ◌<◌, ◌≡◌, ◌≢◌, refl, sym, ap, ◌∙◌, Option, some, List, [], ◌∷◌, ◌++◌,
  arith,
}
use ops_sys.Base.Arrays.{read, write, read-write_self, read-write_ne}
use ops_sys.Buffer.{copy}

-- Fewer than `most` steps round the array do not come back to where they began.
add-mod-ne : (most s i k : ℕ) → 0 < most → suc k < most → (s + i) % most ≢ (s + i + suc k) % most
add-mod-ne most s i k pos h e = elim (dec_lt ((s + i) % most + suc k) most) [
  | yes p ↦ omega (arith, mod-add-mod (s + i) most (suc k), mod-eq_of_lt p)
  | no p ↦ omega (
    arith,
    mod-add-mod (s + i) most (suc k),
    mod-lt (s + i) {m = most} pos,
    mod-eq-sub-mod {n = (s + i) % most + suc k} {m = most} (omega arith),
    mod-eq_of_lt {n = (s + i) % most + suc k - most} {m = most}
        (omega (arith, mod-lt (s + i) {m = most} pos)),
  )
]

module _ {ℓ} {T : Type ℓ} where
  -- A write just past a window makes it longer by the item.
  pub copy-write :
      (buf : List (Option T)) (most start i n j : ℕ) (x : T)
      → n < most
      → j ≡ (start + i + n) % most
      → copy (write buf j x) most start i (suc n) ≡ copy buf most start i n ++ some x ∷ []
  unfolding copy
  copy-write buf most start i zero j x h e =
      let same : (start + i) % most ≡ j = rw e (ap (λ (k : ℕ). k % most) (omega arith)) in
      rw same (ap (λ y. y ∷ []) (read-write_self buf j x))
  copy-write buf most start i (suc n) j x h e =
      let later : j ≡ (start + (i + 1) + n) % most =
        rw e (ap (λ (k : ℕ). k % most) (omega arith)) in
      let apart : j ≢ (start + i) % most =
        λ q. add-mod-ne most start i n (omega arith) h (sym q ∙ e) in
      rw (read-write_ne buf x apart) (
        ap (◌∷◌ (read buf ((start + i) % most)))
          (copy-write buf most start (i + 1) n j x (omega arith) later))

  -- Starting one further round is skipping one.
  pub copy_shift :
      (buf : List (Option T)) (most start i n : ℕ)
      → copy buf most ((start + 1) % most) i n ≡ copy buf most start (i + 1) n
  unfolding copy
  copy_shift buf most start i zero = refl
  copy_shift buf most start i (suc n) =
      let same : ((start + 1) % most + i) % most ≡ (start + (i + 1)) % most =
        mod-add-mod (start + 1) most i ∙ ap (λ (k : ℕ). k % most) (omega arith) in
      rw same (ap (◌∷◌ (read buf ((start + (i + 1)) % most))) (copy_shift buf most start (i + 1) n))
