-- ===== src/Runtime.antt =====
-- What the use cases run on: state with exceptions, the values of use cases
-- (core/utils/use-case-result.ts), numbers, and the clock.
pub mod Number
use api_neutra_v.Prelude.{
  ℕ, ◌≡◌, ◌⊎◌, inl, inr, refl, ap, Bool, true, false, String, Option, none, some, List, [],
  if◌then◌else◌, ◌<>◌,
}
use api_neutra_v.Prelude.Int.{ℤ}
use api_neutra_v.Errors.Middleware.{error_middleware}
use api_neutra_v.Errors.{Thrown, domain, js, DomainError, ErrorDetail}

pub data Result (A : Type 0) : Type 0 where
  ok : A → Result A
  err : Thrown → Result A

-- An `async` method over a store: it returns or throws, and what it wrote stays written.
abbrev pub Action : Type 0 → Type 0 → Type 0
Action S A = S → Result A × S

infixl 5 ◌>>=◌ ◌>>◌
abbrev pub ◌>>=◌ : {S A B : Type 0} → Action S A → (A → Action S B) → Action S B
◌>>=◌ m f s = let (r, s') = m s in elim r [ ok a ↦ f a s' | err e ↦ (err e, s') ]

abbrev pub ◌>>◌ : {S A B : Type 0} → Action S A → Action S B → Action S B
m >> k = m >>= λ _. k

abbrev pub pure : {S A : Type 0} → A → Action S A
pure a s = (ok a, s)

-- `throw new …`
abbrev pub throw : {S A : Type 0} → DomainError → Action S A
throw e s = (err (domain e), s)

-- A read, which may throw and does not write.
abbrev pub query : {S A : Type 0} → (S → Result A) → Action S A
query f s = (f s, s)

-- The answer of a read, put through a function.
abbrev pub ask : {A B : Type 0} → (A → B) → Result A → Result B
ask f (ok a) = ok (f a)
ask f (err e) = err e

-- `if (test) throw …;`
abbrev pub throw_if : {S : Type 0} → Bool → DomainError → Action S (Unit {0})
throw_if b e s = (if b then err (domain e) else ok tt, s)

-- `if (!x) throw …;`, and `x` from there on.
abbrev pub or_throw : {S A : Type 0} → Option A → DomainError → Action S A
or_throw none e s = (err (domain e), s)
or_throw (some a) e s = (ok a, s)

-- A property of a value that may be `null` is asked for.
abbrev pub or_null : {S A : Type 0} → String → Option A → Action S A
or_null property none s =
    (err (js ("Cannot read properties of null (reading '" <> property <> "')")), s)
or_null property (some a) s = (ok a, s)

-- `try { … } catch (error) { … }`
abbrev pub try_catch : {S A : Type 0} → Action S A → (Thrown → Action S A) → Action S A
try_catch m h s = let (r, s') = m s in elim r [ ok a ↦ (ok a, s') | err e ↦ h e s' ]

-- `try { … } catch (error) { throw handler(error); }`
abbrev pub rethrow : {S A : Type 0} → (Thrown → Thrown) → Action S A → Action S A
rethrow h m s = let (r, s') = m s in elim r [ ok a ↦ (ok a, s') | err e ↦ (err (h e), s') ]

-- The result of an action, put through a function.
abbrev pub returns : {S A B : Type 0} → (A → B) → Action S A → Action S B
returns f m s = let (r, s') = m s in elim r [ ok a ↦ (ok (f a), s') | err e ↦ (err e, s') ]

-- `if (test) { … }`
abbrev pub when : {S : Type 0} → Bool → Action S (Unit {0}) → Action S (Unit {0})
when b m s = elim b [ true ↦ m s | false ↦ (ok tt, s) ]

pub record UseCaseResult (T : Type 0) : Type 0 where
  pub success : Bool
  pub message : String
  pub value : Option T
  pub errors : List ErrorDetail

-- `Success(data, message)`; `null` and `undefined` are both an absent value.
abbrev pub success_of : {T : Type 0} → Option T → String → UseCaseResult T
success_of v m = record { success = true; message = m; value = v; errors = [] }

abbrev present_value : {T R : Type 0} → Option T → (T → R) → Option R
present_value none p = none
present_value (some t) p = some (p t)

-- `present(result, presenter)`
pub present : {T R : Type 0} → UseCaseResult T → (T → R) → UseCaseResult R
present r p = record {
  success = r.success;
  message = r.message;
  value = if r.success then present_value r.value p else none;
  errors = if r.success then [] else r.errors;
}

-- An instant, in milliseconds since the epoch.
abbrev pub Time : Type 0
Time = ℤ

-- A bind whose first part returns goes on with the value.
pub bind-of :
    {S A B : Type 0} (m : Action S A) (f : A → Action S B) (s : S) {s₁ : S} {a : A}
    → m s ≡ (ok a, s₁)
    → (m >>= f) s ≡ f a s₁
bind-of m f s h = ap (λ x. elim x.0 [ ok a ↦ f a x.1 | err e ↦ (err e, x.1) ]) h

-- How a call or a read ended.
pub outcome :
    {S A : Type 0} (x : Result A × S)
    → ((a : A) × (s : S) × (x ≡ (ok a, s))) ⊎ ((e : Thrown) × (s : S) × (x ≡ (err e, s)))
outcome (ok a, s) = inl (a, s, refl)
outcome (err e, s) = inr (e, s, refl)

pub answer : {A : Type 0} (x : Result A) → ((a : A) × (x ≡ ok a)) ⊎ ((e : Thrown) × (x ≡ err e))
answer (ok a) = inl (a, refl)
answer (err e) = inr (e, refl)

-- The call throws what the middleware answers with this HTTP status, and leaves the store alone.
abbrev pub Refuses : {S A : Type 0} → ℕ → S → Result A × S → Type 0
Refuses code s (ok a, s') = ⊥
Refuses code s (err e, s') = (s' ≡ s) × ((error_middleware e).status_code ≡ code)

pub ok-injective : {A : Type 0} {a b : A} → ok a ≡ ok b → a ≡ b
ok-injective h = cc
