-- ===== src/Schema/Order/Sorted.antt =====
-- The order of derived fields in hub/schema.py: each field once, after the derived fields it reads.
use qkt_data_hub.Prelude.{
  ℕ, zero, suc, ◌≡◌, refl, sym, ◌∙◌, false, some, List, [], ◌∷◌, ◌++◌, length, ok, >>=-eq-ok,
  ok_inj, ◌==◌, Bool-cases, inl, inr, ◌⊎◌, All, All-imp, Among, arith,
}
use mathlib.Core.Path.{subst}
use qkt_data_hub.Prelude.Text.{Text, text_eq, text_eq_iff}
use qkt_data_hub.Prelude.Dict.{lookup, text_key}
use qkt_data_hub.Prelude.Sets.{sorted_set, All-of_sorted_set}
use qkt_data_hub.Schema.Order.{
  Dependencies, Walk, mark_of, marked, finish, each, visit, order_of, keys_of, fresh_walk,
}
use qkt_data_hub.Schema.Order.Marks.{visit-eq_ok, mark_of-marked, mark_of-finish, each-Keeps}

Among-append_left : (x : Text) (xs ys : List Text) → Among x xs → Among x (xs ++ ys)
Among-append_left x [] ys m = elim m [ ]
Among-append_left x (z ∷ xs) ys (inl e) = inl e
Among-append_left x (z ∷ xs) ys (inr m) = inr (Among-append_left x xs ys m)

Among-append_last : (x : Text) (xs : List Text) → Among x (xs ++ (x ∷ []))
Among-append_last x [] = inl refl
Among-append_last x (z ∷ xs) = inr (Among-append_last x xs)

Among-append-cases : (x y : Text) (xs : List Text) → Among x (xs ++ (y ∷ [])) → Among x xs ⊎ (y ≡ x)
Among-append-cases x y [] (inl e) = inr e
Among-append-cases x y [] (inr m) = elim m [ ]
Among-append-cases x y (z ∷ xs) (inl e) = inl (inl e)
Among-append-cases x y (z ∷ xs) (inr m) = elim (Among-append-cases x y xs m) [
  | inl h ↦ inl (inr h)
  | inr e ↦ inr e
]

-- Built up from the left: a name comes after all that it depends on, and has not come before.
pub data IsTopological (deps : Dependencies) : List Text → Type 0 where
  nothing : IsTopological deps []
  next :
      (order names : List Text) (name : Text)
      → IsTopological deps order
      → lookup name deps ≡ some names
      → All (λ n. Among n order) names
      → ¬ Among name order
      → IsTopological deps (order ++ (name ∷ []))

-- The names that are done are the ones in the order.
record IsWalk (deps : Dependencies) (w : Walk) : Type 0 where
  topological : IsTopological deps w.order
  done_in : (m : Text) → mark_of w m ≡ 2 → Among m w.order
  in_done : (m : Text) → Among m w.order → mark_of w m ≡ 2

marked-IsWalk :
    (deps : Dependencies) (name : Text) (w : Walk)
    → (mark_of w name == 2) ≡ false
    → IsWalk deps w
    → IsWalk deps (marked 1 name w)
marked-IsWalk deps name w d h = record {
  topological = h.topological;
  done_in = λ m e. h.done_in m (ground (arith, mark_of-marked 1 name m w));
  in_done = λ m a.
      let done = h.in_done m a in
      elim (Bool-cases (text_eq name m)) [
        | inl e ↦
            let not_done = subst (λ t. (mark_of w t == 2) ≡ false) ((text_eq_iff name m).0 e) d in
            absurd (ground arith)
        | inr e ↦ mark_of-marked 1 name m w ∙ rw e done
      ];
}

finish-IsWalk :
    (deps : Dependencies) (name : Text) (names : List Text) (w : Walk)
    → mark_of w name ≡ 1
    → lookup name deps ≡ some names
    → All (λ n. mark_of w n ≡ 2) names
    → IsWalk deps w
    → IsWalk deps (finish name w)
finish-IsWalk deps name names w o reads done h = record {
  topological =
      next w.order names name h.topological reads (All-imp _ _ names h.done_in done)
        (λ a. let both = h.in_done name a in omega arith);
  done_in = λ m e. elim (Bool-cases (text_eq name m)) [
    | inl s ↦
        subst (λ t. Among t (w.order ++ (name ∷ []))) ((text_eq_iff name m).0 s)
          (Among-append_last name w.order)
    | inr s ↦
        Among-append_left m w.order (name ∷ [])
          (h.done_in m (sym (mark_of-finish name m w ∙ rw s refl) ∙ e))
  ];
  in_done = λ m a. mark_of-finish name m w ∙ elim (Bool-cases (text_eq name m)) [
    | inl s ↦ rw s refl
    | inr s ↦ elim (Among-append-cases m name w.order a) [
      | inl b ↦ rw s (h.in_done m b)
      | inr e ↦ cc ((text_eq_iff name m).1 e)
    ]
  ];
}

module _ (deps : Dependencies) where
  each-IsWalk :
      (depth : ℕ)
      → ((name : Text) (w v : Walk)
          → visit depth deps name w ≡ ok v
          → IsWalk deps w
          → IsWalk deps v × (mark_of v name ≡ 2))
      → (names : List Text) (w v : Walk) → each (visit depth deps) names w ≡ ok v
      → IsWalk deps w
      → IsWalk deps v × All (λ n. mark_of v n ≡ 2) names
  unfolding each
  each-IsWalk depth one [] w v h k = (subst (IsWalk deps) (ok_inj h) k, tt)
  each-IsWalk depth one (name ∷ names) w v h k =
      let (u, p, q) = >>=-eq-ok (visit depth deps name w) _ h in
      let (good, done) = one name w u p k in
      let (all_good, all_done) = each-IsWalk depth one names u v q good in
      (all_good, ((each-Keeps depth deps names u v q name).1 done, all_done))

  visit-IsWalk :
      (depth : ℕ) (name : Text) (w v : Walk)
      → visit depth deps name w ≡ ok v
      → IsWalk deps w
      → IsWalk deps v × (mark_of v name ≡ 2)
  visit-IsWalk zero name w v h k = elim (visit-eq_ok zero deps name w h) [
    | inl (d, e) ↦ (subst (IsWalk deps) e k, subst (λ x. mark_of x name ≡ 2) e d)
    | inr x ↦ absurd (omega (arith, x.depth_is))
  ]
  visit-IsWalk (suc depth) name w v h k = elim (visit-eq_ok (suc depth) deps name w h) [
    | inl (d, e) ↦ (subst (IsWalk deps) e k, subst (λ x. mark_of x name ≡ 2) e d)
    | inr x ↦
        let same : x.shallower ≡ depth = omega (arith, x.depth_is) in
        let visited =
          subst (λ n. each (visit n deps) (sorted_set x.names) (marked 1 name w) ≡ ok x.between)
            same x.visited in
        let opened : mark_of (marked 1 name w) name ≡ 1 =
          ground (arith, mark_of-marked 1 name name w, text_eq_iff name name) in
        let (good, done) =
          each-IsWalk depth (visit-IsWalk depth) (sorted_set x.names) (marked 1 name w) x.between
            visited (marked-IsWalk deps name w x.not_done k) in
        let still =
          (each-Keeps depth deps (sorted_set x.names) (marked 1 name w) x.between visited name).0
            opened in
        let finished =
          finish-IsWalk deps name x.names x.between still x.reads (All-of_sorted_set _ x.names done)
            good in
        let last : mark_of (finish name x.between) name ≡ 2 =
          ground (arith, mark_of-finish name name x.between, text_eq_iff name name) in
        (subst (IsWalk deps) x.finished finished, subst (λ y. mark_of y name ≡ 2) x.finished last)
  ]

fresh-IsWalk : (deps : Dependencies) → IsWalk deps fresh_walk
unfolding mark_of lookup
fresh-IsWalk deps = record {
  topological = nothing;
  done_in = λ m e. absurd (omega (arith, e));
  in_done = λ m a. elim a [ ];
}

-- The order that `_derived_order` returns for the dependencies holds every derived field, each once and
-- after all the derived fields that its expression reads.
pub order_of-IsTopological :
    (deps : Dependencies) (order : List Text)
    → order_of deps ≡ ok order
    → IsTopological deps order × All (λ name. Among name order) (keys_of deps)
unfolding order_of
order_of-IsTopological deps order h =
    let (w, p, q) =
      >>=-eq-ok (each (visit (length deps) deps) (sorted_set (keys_of deps)) fresh_walk) _ h in
    let (good, done) =
      each-IsWalk deps (length deps) (visit-IsWalk deps (length deps)) (sorted_set (keys_of deps))
        fresh_walk w p (fresh-IsWalk deps) in
    let placed =
      All-imp _ _ (keys_of deps) good.done_in (All-of_sorted_set _ (keys_of deps) done) in
    (
      subst (IsTopological deps) (ok_inj q) good.topological,
      subst (λ l. All (λ name. Among name l) (keys_of deps)) (ok_inj q) placed,
    )
