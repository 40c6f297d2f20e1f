-- ===== src/Schema/Order/Settled.antt =====
-- `_derived_order` of hub/schema.py always ends: with an order, or with a cycle that it refuses.
use qkt_data_hub.Prelude.{
  ℕ, zero, suc, ◌≤◌, ◌≡◌, refl, sym, ap, ◌∙◌, Bool, true, not, ◌&&◌, none, some, List, [], ◌∷◌,
  keep, length, Result, ok, err, >>=-eq_err, err_inj, Exception, schema_error, key_error, ◌==◌,
  Bool-cases, inl, inr, ◌⊎◌, All, All-Among, Among, length-keep, length-keep_le, length-keep_lt,
  arith,
}
use qkt_data_hub.Prelude.Text.{Text, text_eq, text_eq_iff}
use qkt_data_hub.Prelude.Dict.{Dict, lookup, text_key}
use qkt_data_hub.Prelude.Sets.{sorted_set, All-sorted_set}
use qkt_data_hub.Schema.{or_raise}
use qkt_data_hub.Schema.Valid.{or_raise-eq_ok, or_raise-eq_err}
use qkt_data_hub.Schema.Order.{
  Dependencies, Walk, mark_of, marked, each, visit, order_of, keys_of, fresh_walk,
}
use qkt_data_hub.Schema.Order.Marks.{Keeps, visit-Keeps, mark_of-marked}
use qkt_data_hub.Schema.Order.Sorted.{IsTopological, order_of-IsTopological}
use qkt_data_hub.Schema.Order.Cycles.{Steps, order_of-Cycle}

-- every name that a derived field reads has its own entry
abbrev pub IsClosed : Dependencies → Type 0
IsClosed deps =
    (name : Text) (names : List Text)
    → lookup name deps ≡ some names
    → All (λ n. Among n (keys_of deps)) names

-- neither open nor done
abbrev is_new : Walk → Text → Bool
is_new w name = not (mark_of w name == 2) && not (mark_of w name == 1)

lookup_keys :
    {V : Type 0} (d : Dict Text V) (name : Text) → Among name (keys_of d) → lookup name d ≡ none → ⊥
unfolding lookup
lookup_keys [] name m h = elim m [ ]
lookup_keys ((k, v) ∷ d) name m h = elim (Bool-cases (text_eq k name)) [
  | inl e ↦ cc (rw e at h)
  | inr e ↦ elim m [
    | inl s ↦ cc ((text_eq_iff k name).1 s)
    | inr t ↦ lookup_keys d name t (rw e at h)
  ]
]

module _ (deps : Dependencies) where
  -- how many derived fields are still new
  abbrev count_new : Walk → ℕ
  count_new w = length (keep (is_new w) (keys_of deps))

  count_new-Keeps : (w v : Walk) → Keeps w v → count_new v ≤ count_new w
  count_new-Keeps w v k =
      length-keep_le (is_new w) (is_new v) (λ m h. let (o, d) = k m in ground arith) (keys_of deps)

  count_new-marked :
      (name : Text) (w : Walk)
      → Among name (keys_of deps)
      → is_new w name ≡ true
      → suc (count_new (marked 1 name w)) ≤ count_new w
  count_new-marked name w a n =
      length-keep_lt (is_new w) (is_new (marked 1 name w))
        (λ m h. let x = mark_of-marked 1 name m w in ground (arith, x)) name (keys_of deps) a n
        (ground (arith, mark_of-marked 1 name name w, text_eq_iff name name))

  -- an error of the visits is the refusal of a cycle
  module _ (closed : IsClosed deps) where
    each-refuses :
        (depth : ℕ)
        → ((name : Text) (w : Walk) (e : Exception)
            → Among name (keys_of deps)
            → count_new w ≤ depth
            → visit depth deps name w ≡ err e
            → e ≡ schema_error)
        → (names : List Text) (w : Walk) (e : Exception) → All (λ n. Among n (keys_of deps)) names
        → count_new w ≤ depth
        → each (visit depth deps) names w ≡ err e
        → e ≡ schema_error
    unfolding each
    each-refuses depth one [] w e a le h = cc
    each-refuses depth one (name ∷ names) w e a le h =
        elim (>>=-eq_err (visit depth deps name w) _ h) [
          | inl p ↦ one name w e a.0 le p
          | inr (v, p, q) ↦
              let fewer = count_new-Keeps w v (visit-Keeps depth deps name w v p) in
              each-refuses depth one names v e a.1 (omega arith) q
        ]

    visit-refuses :
        (depth : ℕ) (name : Text) (w : Walk) (e : Exception)
        → Among name (keys_of deps)
        → count_new w ≤ depth
        → visit depth deps name w ≡ err e
        → e ≡ schema_error
    unfolding visit
    visit-refuses zero name w e a le h = elim (Bool-cases (mark_of w name == 2)) [
      | inl d ↦ cc (rw d at h)
      | inr d ↦ elim (Bool-cases (mark_of w name == 1)) [
        | inl o ↦ sym (err_inj (rw (d, o) at h))
        | inr o ↦ let one_more = count_new-marked name w a (rw (d, o) refl) in absurd (omega arith)
      ]
    ]
    visit-refuses (suc depth) name w e a le h = elim (Bool-cases (mark_of w name == 2)) [
      | inl d ↦ cc (rw d at h)
      | inr d ↦ elim (Bool-cases (mark_of w name == 1)) [
        | inl o ↦ sym (err_inj (rw (d, o) at h))
        | inr o ↦ elim (>>=-eq_err (or_raise key_error (lookup name deps)) _ (rw (d, o) at h)) [
          | inl p ↦
              absurd (lookup_keys deps name a (or_raise-eq_err key_error (lookup name deps) p).0)
          | inr (names, p, q) ↦
              elim (>>=-eq_err (each (visit depth deps) (sorted_set names) (marked 1 name w)) _ q) [
                | inr (v, r, s) ↦ cc
                | inl r ↦
                    let one_more = count_new-marked name w a (rw (d, o) refl) in
                    let reads = closed name names (or_raise-eq_ok key_error _ p) in
                    each-refuses depth (visit-refuses depth) (sorted_set names) (marked 1 name w) e
                      (All-sorted_set (λ n. Among n (keys_of deps)) names reads) (omega arith) r
              ]
        ]
      ]
    ]

Result-cases :
    {A : Type 0} (r : Result A) → ((a : A) × (r ≡ ok a)) ⊎ ((e : Exception) × (r ≡ err e))
Result-cases (ok a) = inl (a, refl)
Result-cases (err e) = inr (e, refl)

length-keys_of : (deps : Dependencies) → length (keys_of deps) ≡ length deps
length-keys_of [] = refl
length-keys_of (d ∷ deps) = ap suc (length-keys_of deps)

order_of-refuses :
    (deps : Dependencies) (e : Exception) → IsClosed deps → order_of deps ≡ err e → e ≡ schema_error
unfolding order_of
order_of-refuses deps e closed h =
    let names = sorted_set (keys_of deps) in
    elim (>>=-eq_err (each (visit (length deps) deps) names fresh_walk) _ h) [
      | inr (w, p, q) ↦ cc
      | inl p ↦
          let bound : count_new deps fresh_walk ≤ length deps =
            omega (arith, length-keep (is_new fresh_walk) (keys_of deps), length-keys_of deps) in
          each-refuses deps closed (length deps) (visit-refuses deps closed (length deps)) names
            fresh_walk e
            (All-sorted_set (λ n. Among n (keys_of deps)) (keys_of deps) (All-Among (keys_of deps)))
            bound p
    ]

-- an order that has every derived field once, after those that it reads
abbrev pub IsOrder : Dependencies → List Text → Type 0
IsOrder deps order = IsTopological deps order × All (λ name. Among name order) (keys_of deps)

pub order_of-settled :
    (deps : Dependencies)
    → IsClosed deps
    → ((order : List Text) × (order_of deps ≡ ok order) × IsOrder deps order)
      ⊎ ((order_of deps ≡ err schema_error) × ((n : Text) × Steps deps n n))
order_of-settled deps closed = elim (Result-cases (order_of deps)) [
  | inl (order, p) ↦ inl (order, p, order_of-IsTopological deps order p)
  | inr (e, p) ↦
      let refused = p ∙ ap err (order_of-refuses deps e closed p) in
      inr (refused, order_of-Cycle deps refused)
]
