-- ===== src/Account/Prisma/Stats.antt =====
-- The count of new users by month: `getUsersStats` of the repository of users, where a month is the
-- text `YYYY-MM` of a user.
use api_neutra_v.Prelude.{
  ℕ, ◌+◌, ◌≡◌, refl, ap, inl, inr, String, List, [], ◌∷◌, str_eq, str_eq_iff, Bool-cases, arith,
  if◌then◌else◌,
}
use api_neutra_v.Prelude.Int.{ℤ, pos, ltb_ℤ}

-- `stats[month] = (stats[month] || 0) + 1`
abbrev pub count_month : String → List (String × ℕ) → List (String × ℕ)
count_month month [] = (month, 1) ∷ []
count_month month ((m, n) ∷ rest) =
    let counted = count_month month rest in
    if str_eq m month then (m, n + 1) ∷ rest else (m, n) ∷ counted

abbrev pub count_months : List (String × ℕ) → List String → List (String × ℕ)
count_months stats [] = stats
count_months stats (month ∷ rest) = count_months (count_month month stats) rest

-- `.sort((a, b) => a.yearMonth.localeCompare(b.yearMonth))`
abbrev pub insert_month : (String → String → ℤ) → String × ℕ → List (String × ℕ) → List (String × ℕ)
insert_month compare e [] = e ∷ []
insert_month compare e (f ∷ rest) =
    let inserted = insert_month compare e rest in
    if ltb_ℤ (compare f.0 e.0) (pos 0) then f ∷ inserted else e ∷ f ∷ rest

abbrev pub sort_months : (String → String → ℤ) → List (String × ℕ) → List (String × ℕ)
sort_months compare [] = []
sort_months compare (e ∷ rest) = insert_month compare e (sort_months compare rest)

abbrev pub months : (String → String → ℤ) → List String → List (String × ℕ)
months compare xs = sort_months compare (count_months [] xs)

-- The count of a month in the answer, and in the users.
abbrev pub users_in : String → List (String × ℕ) → ℕ
users_in month [] = 0
users_in month ((m, n) ∷ rest) = (if str_eq m month then n else 0) + users_in month rest

abbrev pub occurs : String → List String → ℕ
occurs month [] = 0
occurs month (m ∷ rest) = (if str_eq m month then 1 else 0) + occurs month rest

count_month_lem :
    (k month : String) (stats : List (String × ℕ))
    → users_in k (count_month month stats) ≡ (if str_eq month k then 1 else 0) + users_in k stats
count_month_lem k month [] = refl
count_month_lem k month ((m, n) ∷ rest) = elim (Bool-cases (str_eq m month)) [
  | inr apart ↦
      let step = count_month_lem k month rest in
      elim (Bool-cases (str_eq m k)) [
        | inl here ↦ ground (arith, apart, here, step)
        | inr away ↦ ground (arith, apart, away, step)
      ]
  | inl same ↦
      let is : m ≡ month = (str_eq_iff m month).0 same in
      let both : str_eq m k ≡ str_eq month k = ap (λ x. str_eq x k) is in
      elim (Bool-cases (str_eq m k)) [
        | inl here ↦ ground (arith, same, here, both)
        | inr away ↦ ground (arith, same, away, both)
      ]
]

count_months_lem :
    (k : String) (stats : List (String × ℕ)) (xs : List String)
    → users_in k (count_months stats xs) ≡ occurs k xs + users_in k stats
count_months_lem k stats [] = omega arith
count_months_lem k stats (m ∷ rest) =
    ground (arith, count_months_lem k (count_month m stats) rest, count_month_lem k m stats)

insert_month_lem :
    (k : String) (compare : String → String → ℤ) (e : String × ℕ) (stats : List (String × ℕ))
    → users_in k (insert_month compare e stats) ≡ users_in k (e ∷ stats)
insert_month_lem k compare e [] = refl
insert_month_lem k compare e (f ∷ rest) =
    let step = insert_month_lem k compare e rest in
    elim (Bool-cases (ltb_ℤ (compare f.0 e.0) (pos 0))) [
      | inl before ↦ ground (arith, before, step)
      | inr after ↦ ground (arith, after)
    ]

sort_months_lem :
    (k : String) (compare : String → String → ℤ) (stats : List (String × ℕ))
    → users_in k (sort_months compare stats) ≡ users_in k stats
sort_months_lem k compare [] = refl
sort_months_lem k compare (e ∷ rest) =
    ground (
      arith,
      insert_month_lem k compare e (sort_months compare rest),
      sort_months_lem k compare rest,
    )

-- Whatever the order of texts, the statistics count for each month the users of that month.
pub months_lem :
    (compare : String → String → ℤ) (k : String) (xs : List String)
    → users_in k (months compare xs) ≡ occurs k xs
months_lem compare k xs =
    ground (arith, sort_months_lem k compare (count_months [] xs), count_months_lem k [] xs)
