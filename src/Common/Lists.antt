-- ===== src/Common/Lists.antt =====
-- Lists measured, cut and overwritten by native numbers, under the library's names.
use Prim.Native.Nat.{ℕ, zero, suc, ◌+◌, ◌-◌, ◌≤◌, min}
use mathlib.Core.Path.{◌≡◌, refl, ap, ◌∙◌, sym}
use mathlib.Core.List.{List, [], ◌∷◌, ◌++◌}
use native.Mathlib.Omega.{arith}

module _ {ℓ} {A : Type ℓ} where
  abbrev pub length : List A → ℕ
  length [] = 0
  length (x ∷ xs) = suc (length xs)

  abbrev pub get_or : List A → ℕ → A → A
  get_or [] i d = d
  get_or (x ∷ xs) zero d = x
  get_or (x ∷ xs) (suc i) d = get_or xs i d

  -- A write out of bounds changes nothing.
  abbrev pub set : List A → ℕ → A → List A
  set [] i v = []
  set (x ∷ xs) zero v = v ∷ xs
  set (x ∷ xs) (suc i) v = x ∷ set xs i v

  abbrev pub take : ℕ → List A → List A
  take zero xs = []
  take (suc n) [] = []
  take (suc n) (x ∷ xs) = x ∷ take n xs

  abbrev pub drop : ℕ → List A → List A
  drop zero xs = xs
  drop (suc n) [] = []
  drop (suc n) (x ∷ xs) = drop n xs

  abbrev pub replicate : ℕ → A → List A
  replicate zero a = []
  replicate (suc n) a = a ∷ replicate n a

  abbrev pub concat : List (List A) → List A
  concat [] = []
  concat (xs ∷ rest) = xs ++ concat rest

  -- `copy_at i src dst` is `memcpy(dst + i, src, n)` for the `n` elements of `src`. What lies behind
  -- the end of `dst` is not there to be written.
  unfoldable pub copy_at : ℕ → List A → List A → List A
  copy_at zero [] dst = dst
  copy_at zero (x ∷ src) [] = []
  copy_at zero (x ∷ src) (y ∷ dst) = x ∷ copy_at zero src dst
  copy_at (suc i) src [] = []
  copy_at (suc i) src (y ∷ dst) = y ∷ copy_at i src dst

module _ {ℓ} {A : Type ℓ} where
  pub length-append : (xs ys : List A) → length (xs ++ ys) ≡ length xs + length ys
  length-append [] ys = omega arith
  length-append (x ∷ xs) ys = omega (arith, length-append xs ys)

  pub take_all : (xs : List A) → take (length xs) xs ≡ xs
  take_all [] = refl
  take_all (x ∷ xs) = ap (◌∷◌ x) (take_all xs)

  pub take-append : (xs ys : List A) → take (length xs) (xs ++ ys) ≡ xs
  take-append [] ys = refl
  take-append (x ∷ xs) ys = ap (◌∷◌ x) (take-append xs ys)

  pub drop-append : (xs ys : List A) → drop (length xs) (xs ++ ys) ≡ ys
  drop-append [] ys = refl
  drop-append (x ∷ xs) ys = drop-append xs ys

  pub drop-nil : (n : ℕ) → drop n (let none_left : List A = [] in none_left) ≡ []
  drop-nil zero = refl
  drop-nil (suc n) = refl

  pub drop-drop : (m n : ℕ) (xs : List A) → drop m (drop n xs) ≡ drop (n + m) xs
  drop-drop m zero xs = ap (λ (k : ℕ). drop k xs) (omega arith)
  drop-drop m (suc n) [] = drop-nil m ∙ sym (drop-nil (suc n + m))
  drop-drop m (suc n) (x ∷ xs) =
      drop-drop m n xs ∙ ap (λ (k : ℕ). drop k (x ∷ xs)) {x = suc (n + m)} (omega arith)

  pub length-drop : (n : ℕ) (xs : List A) → length (drop n xs) ≡ length xs - n
  length-drop zero xs = omega arith
  length-drop (suc n) [] = omega arith
  length-drop (suc n) (x ∷ xs) = omega (arith, length-drop n xs)

  pub length-take : (n : ℕ) (xs : List A) → length (take n xs) ≡ min n (length xs)
  length-take zero xs = omega arith
  length-take (suc n) [] = omega arith
  length-take (suc n) (x ∷ xs) = omega (arith, length-take n xs)

  pub take-append-drop : (n : ℕ) (xs : List A) → take n xs ++ drop n xs ≡ xs
  take-append-drop zero xs = refl
  take-append-drop (suc n) [] = refl
  take-append-drop (suc n) (x ∷ xs) = ap (◌∷◌ x) (take-append-drop n xs)

  copy_at-start :
      (src dst : List A)
      → length src ≤ length dst
      → copy_at 0 src dst ≡ src ++ drop (length src) dst
  unfolding copy_at
  copy_at-start [] dst h = refl
  copy_at-start (x ∷ src) [] h = elim h [ ]
  copy_at-start (x ∷ src) (y ∷ dst) h = ap (◌∷◌ x) (copy_at-start src dst (omega arith))

  -- A copy behind what is written keeps it, and keeps what lies behind the copy.
  pub copy_at-append :
      (pre src dst : List A)
      → length src ≤ length dst
      → copy_at (length pre) src (pre ++ dst) ≡ (pre ++ src) ++ drop (length src) dst
  unfolding copy_at
  copy_at-append [] src dst h = copy_at-start src dst h
  copy_at-append (x ∷ pre) src dst h = ap (◌∷◌ x) (copy_at-append pre src dst h)

  -- The loop that writes cell by cell makes the same copy.
  pub set-append :
      (pre : List A) (v d : A) (dst : List A) → set (pre ++ d ∷ dst) (length pre) v ≡ pre ++ v ∷ dst
  set-append [] v d dst = refl
  set-append (x ∷ pre) v d dst = ap (◌∷◌ x) (set-append pre v d dst)

  take_nil : (n : ℕ) → take n (let none_left : List A = [] in none_left) ≡ []
  take_nil zero = refl
  take_nil (suc n) = refl

  pub take_long : (n : ℕ) (xs : List A) → length xs ≤ n → take n xs ≡ xs
  take_long zero [] h = refl
  take_long zero (x ∷ xs) h = absurd (omega arith)
  take_long (suc n) [] h = refl
  take_long (suc n) (x ∷ xs) h = ap (◌∷◌ x) (take_long n xs (omega arith))

  pub take-append_short : (n : ℕ) (xs ys : List A) → n ≤ length xs → take n (xs ++ ys) ≡ take n xs
  take-append_short zero xs ys h = refl
  take-append_short (suc n) [] ys h = absurd (omega arith)
  take-append_short (suc n) (x ∷ xs) ys h = ap (◌∷◌ x) (take-append_short n xs ys (omega arith))

  pub length-replicate : (n : ℕ) (x : A) → length (replicate n x) ≡ n
  length-replicate zero x = refl
  length-replicate (suc n) x = omega (arith, length-replicate n x)

  -- A copy into the middle, as the three parts of the result.
  pub copy_at_split :
      (off : ℕ) (src dst : List A)
      → off + length src ≤ length dst
      → copy_at off src dst ≡ (take off dst ++ src) ++ drop (off + length src) dst
  copy_at_split off src dst h =
      let front : off ≡ length (take off dst) = omega (arith, length-take off dst) in
      ap (copy_at off src) (sym (take-append-drop off dst))
      ∙ ap (λ (k : ℕ). copy_at k src (take off dst ++ drop off dst)) front
      ∙ copy_at-append (take off dst) src (drop off dst) (omega (arith, length-drop off dst))
      ∙ ap (λ (t : List A). (take off dst ++ src) ++ t) (drop-drop (length src) off dst)

  pub length-copy_at :
      (off : ℕ) (src dst : List A)
      → off + length src ≤ length dst
      → length (copy_at off src dst) ≡ length dst
  length-copy_at off src dst h =
      ap length (copy_at_split off src dst h)
      ∙ omega (
        arith,
        length-append (take off dst ++ src) (drop (off + length src) dst),
        length-append (take off dst) src,
        length-take off dst,
        length-drop (off + length src) dst,
      )

  pub drop-take : (k n : ℕ) (xs : List A) → drop k (take n xs) ≡ take (n - k) (drop k xs)
  drop-take zero n xs = ap (λ (m : ℕ). take m xs) {x = n} (omega arith)
  drop-take (suc k) zero xs = ap (λ (m : ℕ). take m (drop (suc k) xs)) {x = 0} (omega arith)
  drop-take (suc k) (suc n) [] = sym (take_nil (suc n - suc k))
  drop-take (suc k) (suc n) (x ∷ xs) =
      drop-take k n xs ∙ ap (λ (m : ℕ). take m (drop k xs)) (omega arith)

  pub take-take : (k n : ℕ) (xs : List A) → k ≤ n → take k (take n xs) ≡ take k xs
  take-take zero n xs h = refl
  take-take (suc k) zero xs h = absurd (omega arith)
  take-take (suc k) (suc n) [] h = refl
  take-take (suc k) (suc n) (x ∷ xs) h = ap (◌∷◌ x) (take-take k n xs (omega arith))

  pub drop_long : (n : ℕ) (xs : List A) → length xs ≤ n → drop n xs ≡ []
  drop_long zero [] h = refl
  drop_long zero (x ∷ xs) h = absurd (omega arith)
  drop_long (suc n) [] h = refl
  drop_long (suc n) (x ∷ xs) h = drop_long n xs (omega arith)
