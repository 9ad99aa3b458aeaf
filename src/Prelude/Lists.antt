-- ===== src/Prelude/Lists.antt =====
-- Lists over the native numbers, and predicates on lists by recursion.
use Prim.Native.Nat.{ℕ, zero, suc, ◌+◌}
use mathlib.Core.Logic.{◌⊎◌, inl, inr}
use mathlib.Core.Path.{◌≡◌, refl, sym, subst}
use mathlib.Core.Bool.{Bool, true, false, ◌&&◌, ◌||◌}
use mathlib.Core.Option.{Option, none, some}
use mathlib.Core.List.{Memᴰ, List, [], ◌∷◌, ◌++◌}
use kanna_pa.Prelude.Tests.{if◌then◌else◌}
use native.Mathlib.Omega.{arith}

abbrev pub All {ℓ κ} : {A : Type ℓ} → (A → Type κ) → List A → Type κ
All P [] = Unit
All P (x ∷ xs) = P x × All P xs

module _ {ℓ} {A : Type ℓ} where
  abbrev pub length : List A → ℕ
  length [] = 0
  length (x ∷ xs) = suc (length xs)

  abbrev pub get_elem? : List A → ℕ → Option A
  get_elem? [] i = none
  get_elem? (x ∷ xs) zero = some x
  get_elem? (x ∷ xs) (suc i) = get_elem? xs i

  -- `all(p(x) for x in xs)` and `any(...)`
  abbrev pub all_of : (A → Bool) → List A → Bool
  all_of p [] = true
  all_of p (x ∷ xs) = p x && all_of p xs

  abbrev pub any_of : (A → Bool) → List A → Bool
  any_of p [] = false
  any_of p (x ∷ xs) = p x || any_of p xs

  pub length-append : (xs ys : List A) → length (xs ++ ys) ≡ length xs + length ys
  length-append [] ys = omega arith
  length-append (x ∷ xs) ys = omega (arith, length-append xs ys)

  pub All-append {κ} :
      (Q : A → Type κ) (front bs : List A) → All Q front → All Q bs → All Q (front ++ bs)
  All-append Q [] bs left right = right
  All-append Q (a ∷ front) bs (here, left) right = (here, All-append Q front bs left right)

  pub All-mem {κ} : (Q : A → Type κ) (xs : List A) {a : A} → All Q xs → Memᴰ a xs → Q a
  All-mem Q [] h m = elim m [ ]
  All-mem Q (x ∷ xs) h (Memᴰ.head e) = subst Q (sym e) h.0
  All-mem Q (x ∷ xs) h (Memᴰ.tail m) = All-mem Q xs h.1 m

  -- sorted(xs), by the order `le`
  unfoldable pub insert_by : (A → A → Bool) → A → List A → List A
  insert_by le a [] = a ∷ []
  insert_by le a (b ∷ bs) = let rest = insert_by le a bs in if le a b then a ∷ b ∷ bs else b ∷ rest

  unfoldable pub sorted : (A → A → Bool) → List A → List A
  unfolding insert_by
  sorted le [] = []
  sorted le (a ∷ bs) = insert_by le a (sorted le bs)

  pub mem_last : (x y : A) (ys : List A) → Memᴰ x (ys ++ y ∷ []) → Memᴰ x ys ⊎ (x ≡ y)
  mem_last x y [] (Memᴰ.head e) = inr e
  mem_last x y [] (Memᴰ.tail m) = elim m [ ]
  mem_last x y (z ∷ ys) (Memᴰ.head e) = inl (Memᴰ.head e)
  mem_last x y (z ∷ ys) (Memᴰ.tail m) = elim (mem_last x y ys m) [
    | inl h ↦ inl (Memᴰ.tail h)
    | inr e ↦ inr e
  ]

  pub mem_front : (x : A) (ys zs : List A) → Memᴰ x ys → Memᴰ x (ys ++ zs)
  mem_front x [] zs m = elim m [ ]
  mem_front x (y ∷ ys) zs (Memᴰ.head e) = Memᴰ.head e
  mem_front x (y ∷ ys) zs (Memᴰ.tail m) = Memᴰ.tail (mem_front x ys zs m)

  pub mem_end : (x : A) (ys : List A) → Memᴰ x (ys ++ x ∷ [])
  mem_end x [] = Memᴰ.head refl
  mem_end x (y ∷ ys) = Memᴰ.tail (mem_end x ys)

  pub all_of→All : (p : A → Bool) (xs : List A) → all_of p xs ≡ true → All (λ x. p x ≡ true) xs
  all_of→All p [] h = tt
  all_of→All p (x ∷ xs) h = (ground arith, all_of→All p xs (ground arith))

  pub All→all_of : (p : A → Bool) (xs : List A) → All (λ x. p x ≡ true) xs → all_of p xs ≡ true
  All→all_of p [] h = refl
  All→all_of p (x ∷ xs) h = ground (arith, All→all_of p xs h.1)
