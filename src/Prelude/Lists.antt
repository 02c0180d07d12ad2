-- ===== src/Prelude/Lists.antt =====
-- Lists under the names of JavaScript's array methods, tested by Boolean functions, and the
-- predicates on lists that the theorems use.
use Prim.Native.Nat.{ℕ, zero, suc}
use mathlib.Core.Path.{◌≡◌, refl, sym, ◌∙◌, subst}
use mathlib.Core.Logic.{◌⊎◌, inl, inr, ◌↔◌}
use mathlib.Core.Bool.{Bool, true, false, ◌&&◌, ◌||◌, false≢true}
use mathlib.Core.Option.{Option, none, some}
use native.Mathlib.Omega.{arith}
use mathlib.Core.List.{List, [], ◌∷◌, ◌++◌, map}
use api_neutra_v.Prelude.Tests.{if◌then◌else◌, Bool-cases}

module _ {ℓ} {A : Type ℓ} where
  abbrev pub length : List A → ℕ
  length [] = 0
  length (x ∷ xs) = suc (length xs)

  -- `xs.filter(p)`
  abbrev pub filter : (A → Bool) → List A → List A
  filter p [] = []
  filter p (x ∷ xs) = let rest = filter p xs in if p x then x ∷ rest else rest

  -- `xs.some(p)` and `xs.every(p)`
  abbrev pub any : (A → Bool) → List A → Bool
  any p [] = false
  any p (x ∷ xs) = p x || any p xs

  abbrev pub all : (A → Bool) → List A → Bool
  all p [] = true
  all p (x ∷ xs) = p x && all p xs

  -- `xs.find(p)`
  abbrev pub find : (A → Bool) → List A → Option A
  find p [] = none
  find p (x ∷ xs) = let rest = find p xs in if p x then some x else rest

  abbrev pub is_empty : List A → Bool
  is_empty [] = true
  is_empty (_ ∷ _) = false

  abbrev pub get_or : List A → ℕ → A → A
  get_or [] i d = d
  get_or (x ∷ xs) zero d = x
  get_or (x ∷ xs) (suc i) d = get_or xs i d

abbrev pub All {ℓ κ} : {A : Type ℓ} → (A → Type κ) → List A → Type κ
All P [] = Unit
All P (x ∷ xs) = P x × All P xs

abbrev pub Member : {A : Type 0} → A → List A → Type 0
Member x [] = ⊥
Member x (y ∷ ys) = (x ≡ y) ⊎ Member x ys

pub All-Member :
    {A : Type 0} (P : A → Type 0) (xs : List A) → ((x : A) → Member x xs → P x) → All P xs
All-Member P [] h = tt
All-Member P (x ∷ xs) h = (h x (inl refl), All-Member P xs (λ y m. h y (inr m)))

pub of_All : {A : Type 0} (P : A → Type 0) (x : A) (xs : List A) → All P xs → Member x xs → P x
of_All P x [] h m = absurd m
of_All P x (y ∷ ys) (p, ps) (inl e) = subst P (sym e) p
of_All P x (y ∷ ys) (p, ps) (inr m) = of_All P x ys ps m

-- `filter` keeps exactly the members that pass.
pub mem-filter :
    {A : Type 0} (p : A → Bool) (x : A) (xs : List A)
    → Member x (filter p xs) ↔ (Member x xs × (p x ≡ true))
mem-filter p x [] = (λ m. absurd m, λ m. m.0)
mem-filter p x (y ∷ ys) = elim (Bool-cases (p y)) [
  | inl e ↦ rw e (
    elim [
      | inl q ↦ (inl q, subst (λ z. p z ≡ true) (sym q) e)
      | inr m ↦ let (a, b) = (mem-filter p x ys).0 m in (inr a, b)
    ],
    λ (m, b). elim m [ inl q ↦ inl q | inr a ↦ inr ((mem-filter p x ys).1 (a, b)) ],
  )
  | inr e ↦ rw e (
    λ m. let (a, b) = (mem-filter p x ys).0 m in (inr a, b),
    λ (m, b). elim m [
      | inl q ↦ absurd (false≢true (sym e ∙ subst (λ z. p z ≡ true) q b))
      | inr a ↦ (mem-filter p x ys).1 (a, b)
    ],
  )
]

-- An empty `filter` means that no member passes.
pub is_empty-filter :
    {A : Type 0} (p : A → Bool) (xs : List A)
    → (is_empty (filter p xs) ≡ true) ↔ All (λ x. p x ≡ false) xs
is_empty-filter p [] = (λ _. tt, λ _. refl)
is_empty-filter p (x ∷ xs) = elim (Bool-cases (p x)) [
  | inl e ↦ rw e (λ h. cc, λ h. cc)
  | inr e ↦ rw e (λ h. (refl, (is_empty-filter p xs).0 h), λ h. (is_empty-filter p xs).1 h.1)
]

-- Some member of the list passes the test.
abbrev pub Some : {A : Type 0} → (A → Bool) → List A → Type 0
Some {A} p xs = (x : A) × Member x xs × (p x ≡ true)

pub any_iff : {A : Type 0} (p : A → Bool) (xs : List A) → (any p xs ≡ true) ↔ Some p xs
any_iff p [] = (λ h. absurd (false≢true h), λ s. absurd s.1)
any_iff p (x ∷ xs) = elim (Bool-cases (p x)) [
  | inl e ↦ rw e (λ h. (x, inl refl, e), λ h. refl)
  | inr e ↦ rw e (
    λ h. let (y, m, q) = (any_iff p xs).0 h in (y, inr m, q),
    λ (y, m, q). elim m [
      | inl same ↦ absurd (false≢true (sym e ∙ subst (λ z. p z ≡ true) same q))
      | inr deep ↦ (any_iff p xs).1 (y, deep, q)
    ],
  )
]

pub All-imp :
    {A : Type 0} (P Q R : A → Type 0)
    → ((x : A) → P x → Q x → R x)
    → (xs : List A) → All P xs
    → All Q xs
    → All R xs
All-imp P Q R f [] h k = tt
All-imp P Q R f (x ∷ xs) (p, ps) (q, qs) = (f x p q, All-imp P Q R f xs ps qs)

pub All-each :
    {A : Type 0} (P Q : A → Type 0) → ((x : A) → P x → Q x) → (xs : List A) → All P xs → All Q xs
All-each P Q f [] h = tt
All-each P Q f (x ∷ xs) (p, ps) = (f x p, All-each P Q f xs ps)

pub List-cases : {A : Type 0} (xs : List A) → (xs ≡ []) ⊎ ((x : A) × (ys : List A) × (xs ≡ x ∷ ys))
List-cases [] = inl refl
List-cases (x ∷ xs) = inr (x, xs, refl)

pub find_holds : {A : Type 0} (p : A → Bool) (xs : List A) (x : A) → find p xs ≡ some x → p x ≡ true
find_holds p [] x h = absurd (ground (arith, h))
find_holds p (y ∷ ys) x h = elim (Bool-cases (p y)) [
  | inl e ↦ subst (λ z. p z ≡ true) {x = y} {y = x} (ground (arith, e, h)) e
  | inr e ↦ find_holds p ys x (ground (arith, e, h))
]

pub find-append :
    {A : Type 0} (p : A → Bool) (xs : List A) (y : A)
    → find p xs ≡ none
    → p y ≡ true
    → find p (xs ++ (y ∷ [])) ≡ some y
find-append p [] y h k = rw k refl
find-append p (x ∷ xs) y h k = elim (Bool-cases (p x)) [
  | inl e ↦ absurd (ground (arith, e, h))
  | inr e ↦ rw e (find-append p xs y (ground (arith, e, h)) k)
]

pub found_after :
    {A : Type 0} (p q : A → Bool) (r old : A) (xs : List A)
    → p r ≡ true
    → q old ≡ true
    → find p xs ≡ some old
    → find p (map (λ x. if q x then r else x) xs) ≡ some r
found_after p q r old [] h k found = absurd (ground (arith, found))
found_after p q r old (x ∷ xs) h k found = elim (Bool-cases (q x)) [
  | inl e ↦ rw (e, h) refl
  | inr e ↦ elim (Bool-cases (p x)) [
    | inl f ↦ absurd (
        ground
          (arith, e, k, subst (λ z. q z ≡ false) {x = x} {y = old} (ground (arith, f, found)) e))
    | inr f ↦ rw (e, f) (found_after p q r old xs h k (ground (arith, f, found)))
  ]
]

pub find_kept :
    {A : Type 0} (p q : A → Bool) (r : A) (xs : List A)
    → q r ≡ false
    → ((x : A) → p x ≡ true → q x ≡ false)
    → find q (map (λ x. if p x then r else x) xs) ≡ find q xs
find_kept p q r [] h apart = refl
find_kept p q r (x ∷ xs) h apart = elim (Bool-cases (p x)) [
  | inl e ↦ rw (e, h, apart x e) (find_kept p q r xs h apart)
  | inr e ↦ rw (e, find_kept p q r xs h apart) refl
]
