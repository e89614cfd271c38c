-- ===== src/Base/Lists.antt =====
-- Lists over the native numbers, and Python's slices, `any` and `all`.
use Prim.Native.Nat.{ℕ, zero, suc, ◌+◌, ◌-◌, ◌≤◌}
use mathlib.Core.Path.{◌≡◌, refl, sym, subst}
use mathlib.Core.Bool.{Bool, true, false, ◌&&◌, ◌||◌}
use mathlib.Core.Option.{Option, none, some}
use mathlib.Core.List.{List, [], ◌∷◌, ◌++◌, map}
use mathlib.Core.Logic.{◌⊎◌, inl, inr}
use native.Mathlib.Omega.{arith}
use super_agent_platform.Base.Tests.{if◌then◌else◌, Bool-cases}

module _ {ℓ} {A : Type ℓ} where
  abbrev pub length : List A → ℕ
  length [] = 0
  length (_ ∷ xs) = suc (length xs)

  abbrev pub take : ℕ → List A → List A
  take zero xs = []
  take (suc n) [] = []
  take (suc n) (x ∷ xs) = x ∷ take n xs

  abbrev pub drop : ℕ → List A → List A
  drop zero xs = xs
  drop (suc n) [] = []
  drop (suc n) (x ∷ xs) = drop n xs

  abbrev pub get_elem? : List A → ℕ → Option A
  get_elem? [] i = none
  get_elem? (x ∷ xs) zero = some x
  get_elem? (x ∷ xs) (suc i) = get_elem? xs i

  -- `xs[-n:]` for 0 < n.
  abbrev pub take_last : ℕ → List A → List A
  take_last n xs = drop (length xs - n) xs

  abbrev pub any : (A → Bool) → List A → Bool
  any p [] = false
  any p (x ∷ xs) = p x || any p xs

  abbrev pub all : (A → Bool) → List A → Bool
  all p [] = true
  all p (x ∷ xs) = p x && all p xs

  -- How many items pass.
  abbrev pub count_if : (A → Bool) → List A → ℕ
  count_if p [] = 0
  count_if p (x ∷ xs) = let rest = count_if p xs in if p x then suc rest else rest

  abbrev pub keep_if : (A → Bool) → List A → List A
  keep_if p [] = []
  keep_if p (x ∷ xs) = let rest = keep_if p xs in if p x then x ∷ rest else rest

  abbrev pub find_first : (A → Bool) → List A → Option A
  find_first p [] = none
  find_first p (x ∷ xs) = let rest = find_first p xs in if p x then some x else rest

  abbrev pub All {κ} : (A → Type κ) → List A → Type κ
  All P [] = Unit
  All P (x ∷ xs) = P x × All P xs

  -- An occurrence of an item.
  pub data Occurs (a : A) : List A → Type ℓ where
    here : {xs : List A} → Occurs a (a ∷ xs)
    there : {x : A} {xs : List A} → Occurs a xs → Occurs a (x ∷ xs)

  pub length-append : (xs ys : List A) → length (xs ++ ys) ≡ length xs + length ys
  length-append [] ys = omega arith
  length-append (x ∷ xs) ys = omega (arith, length-append xs ys)

  pub length-take-le : (n : ℕ) (xs : List A) → length (take n xs) ≤ n
  length-take-le zero xs = omega arith
  length-take-le (suc n) [] = omega arith
  length-take-le (suc n) (x ∷ xs) = omega (arith, length-take-le n xs)

  pub length-drop : (n : ℕ) (xs : List A) → length (drop n xs) ≡ length xs - n
  length-drop zero xs = omega arith
  length-drop (suc n) [] = omega arith
  length-drop (suc n) (x ∷ xs) = omega (arith, length-drop n xs)

  pub All-append {κ} : (P : A → Type κ) (xs ys : List A) → All P xs → All P ys → All P (xs ++ ys)
  All-append P [] ys h k = k
  All-append P (x ∷ xs) ys h k = (h.0, All-append P xs ys h.1 k)

  pub All-Occurs {κ} : (P : A → Type κ) {a : A} {xs : List A} → All P xs → Occurs a xs → P a
  All-Occurs P h here = h.0
  All-Occurs P h (there o) = All-Occurs P h.1 o

module _ {ℓ} {A : Type ℓ} where
  pub count_if_mono :
      (p q : A → Bool)
      → ((a : A) → p a ≡ true → q a ≡ true)
      → (xs : List A) → count_if p xs ≤ count_if q xs
  count_if_mono p q h [] = omega arith
  count_if_mono p q h (x ∷ xs) = ground (arith, h x, count_if_mono p q h xs)

  pub count_if-map {κ} :
      {B : Type κ} (p : B → Bool) (f : A → B) (xs : List A)
      → count_if p (map f xs) ≡ count_if (λ x. p (f x)) xs
  count_if-map p f [] = omega arith
  count_if-map p f (x ∷ xs) = ground (arith, count_if-map p f xs)

  pub count_if-split :
      (p q r : A → Bool)
      → ((a : A) → p a ≡ true → (q a ≡ true) ⊎ (r a ≡ true))
      → (xs : List A) → count_if p xs ≤ count_if q xs + count_if r xs
  count_if-split p q r h [] = omega arith
  count_if-split p q r h (x ∷ xs) = ground (arith, h x, count_if-split p q r h xs)

  pub count_if-append :
      (p : A → Bool) (xs ys : List A) → count_if p (xs ++ ys) ≡ count_if p xs + count_if p ys
  count_if-append p [] ys = omega arith
  count_if-append p (x ∷ xs) ys = ground (arith, count_if-append p xs ys)

  pub any-append : (p : A → Bool) (xs ys : List A) → any p (xs ++ ys) ≡ (any p xs || any p ys)
  any-append p [] ys = refl
  any-append p (x ∷ xs) ys = ground (arith, any-append p xs ys)

  pub any-false : (p : A → Bool) (xs : List A) → any p xs ≡ false → count_if p xs ≡ 0
  any-false p [] h = omega arith
  any-false p (x ∷ xs) h = ground (arith, any-false p xs)

  pub any-true : (p : A → Bool) (xs : List A) → any p xs ≡ true → 1 ≤ count_if p xs
  any-true p [] h = absurd (ground arith)
  any-true p (x ∷ xs) h = ground (arith, any-true p xs)

  pub count_if-le-length : (p : A → Bool) (xs : List A) → count_if p xs ≤ length xs
  count_if-le-length p [] = omega arith
  count_if-le-length p (x ∷ xs) = ground (arith, count_if-le-length p xs)

  pub find_first-none : (p : A → Bool) (xs : List A) → find_first p xs ≡ none → count_if p xs ≡ 0
  find_first-none p [] h = omega arith
  find_first-none p (x ∷ xs) h = ground (arith, find_first-none p xs)

  pub find_first-some :
      (p : A → Bool) (xs : List A) {a : A} → find_first p xs ≡ some a → (p a ≡ true) × Occurs a xs
  find_first-some p [] h = absurd (ground arith)
  find_first-some p (x ∷ xs) {a} h = elim (Bool-cases (p x)) [
    | inl yes_x ↦
        let e : x ≡ a = ground arith in
        (subst (λ y. p y ≡ true) e yes_x, subst (λ y. Occurs a (y ∷ xs)) (sym e) here)
    | inr no_x ↦
        let (passes, at) = find_first-some p xs {a = a} (ground arith) in (passes, there at)
  ]

  -- A change of the items that a test does not see.
  pub find_first-map :
      (p : A → Bool) (f : A → A) (xs : List A) (a : A)
      → ((x : A) → p (f x) ≡ p x)
      → find_first p xs ≡ some a
      → find_first p (map f xs) ≡ some (f a)
  find_first-map p f [] a kept h = absurd (ground arith)
  find_first-map p f (x ∷ xs) a kept h = elim (Bool-cases (p x)) [
    | inl yes_x ↦
        let same : some x ≡ some a =
          subst (λ b. (if b then some x else find_first p xs) ≡ some a) yes_x h in
        rw (kept x) (rw yes_x (cc same))
    | inr no_x ↦
        let rest : find_first p xs ≡ some a =
          subst (λ b. (if b then some x else find_first p xs) ≡ some a) no_x h in
        rw (kept x) (rw no_x (find_first-map p f xs a kept rest))
  ]

  pub Occurs-count :
      (p : A → Bool) {a : A} {xs : List A} → Occurs a xs → p a ≡ true → 1 ≤ count_if p xs
  Occurs-count p {a} (here {xs = xs}) h = ground arith
  Occurs-count p {a} (there {x = x} {xs = xs} o) h = ground (arith, Occurs-count p o h)

  -- A stable insertion sort by a Boolean order, for `ORDER BY`.
  unfoldable pub insert_by : (A → A → Bool) → A → List A → List A
  insert_by before a [] = a ∷ []
  insert_by before a (x ∷ xs) =
      let rest = insert_by before a xs in if before a x then a ∷ (x ∷ xs) else x ∷ rest

  unfoldable pub sort_by : (A → A → Bool) → List A → List A
  unfolding insert_by
  sort_by before [] = []
  sort_by before (x ∷ xs) = insert_by before x (sort_by before xs)

  count_if-insert_by :
      (p : A → Bool) (before : A → A → Bool) (a : A) (xs : List A)
      → count_if p (insert_by before a xs) ≡ count_if p (a ∷ xs)
  unfolding insert_by
  count_if-insert_by p before a [] = refl
  count_if-insert_by p before a (x ∷ xs) = ground (arith, count_if-insert_by p before a xs)

  -- Sorting keeps how often anything occurs.
  pub count_if-sort_by :
      (p : A → Bool) (before : A → A → Bool) (xs : List A)
      → count_if p (sort_by before xs) ≡ count_if p xs
  unfolding sort_by
  count_if-sort_by p before [] = refl
  count_if-sort_by p before (x ∷ xs) =
      ground
        (arith, count_if-insert_by p before x (sort_by before xs), count_if-sort_by p before xs)

  pub count_if-take : (p : A → Bool) (n : ℕ) (xs : List A) → count_if p (take n xs) ≤ count_if p xs
  count_if-take p zero xs = omega arith
  count_if-take p (suc n) [] = omega arith
  count_if-take p (suc n) (x ∷ xs) = ground (arith, count_if-take p n xs)

  pub count_if-keep_if-le :
      (p q : A → Bool) (xs : List A) → count_if p (keep_if q xs) ≤ count_if p xs
  count_if-keep_if-le p q [] = omega arith
  count_if-keep_if-le p q (x ∷ xs) = ground (arith, count_if-keep_if-le p q xs)

  -- Where at most one item passes, two that pass are the same.
  pub Occurs-unique :
      (p : A → Bool) {a b : A} {xs : List A}
      → count_if p xs ≤ 1
      → p a ≡ true
      → p b ≡ true
      → Occurs a xs
      → Occurs b xs
      → a ≡ b
  Occurs-unique p h pa pb here here = refl
  Occurs-unique p h pa pb here (there o) = absurd (ground (arith, Occurs-count p o pb))
  Occurs-unique p h pa pb (there o) here = absurd (ground (arith, Occurs-count p o pa))
  Occurs-unique p h pa pb (there {x = x} {xs = xs} o) (there o') =
      Occurs-unique p (ground arith) pa pb o o'

module _ {ℓ κ} {A : Type ℓ} {B : Type κ} where
  pub length-map : (f : A → B) (xs : List A) → length (map f xs) ≡ length xs
  length-map f [] = omega arith
  length-map f (x ∷ xs) = omega (arith, length-map f xs)

  pub map_cong :
      (f g : A → B) (xs : List A) → ((a : A) → Occurs a xs → f a ≡ g a) → map f xs ≡ map g xs
  map_cong f g [] h = refl
  map_cong f g (x ∷ xs) h = cc (h x here, map_cong f g xs (λ a o. h a (there o)))
