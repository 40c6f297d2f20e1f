-- ===== src/Schema/Order/Cycles.antt =====
-- When `_derived_order` of hub/schema.py refuses a cycle, there is one.
use qkt_data_hub.Prelude.{
  ℕ, zero, suc, ◌≡◌, refl, sym, ◌∙◌, some, List, [], ◌∷◌, length, ok, err, >>=-eq_err, schema_error,
  key_error, ◌==◌, Bool-cases, inl, inr, All, All-Among, All-imp, Among, arith,
}
use mathlib.Core.Path.{subst}
use qkt_data_hub.Prelude.Text.{Text, text_eq, text_eq_iff}
use qkt_data_hub.Prelude.Dict.{lookup, text_key}
use qkt_data_hub.Prelude.Sets.{sorted_set, sorted_set-Among}
use qkt_data_hub.Schema.{or_raise}
use qkt_data_hub.Schema.Valid.{or_raise-eq_ok, or_raise-eq_err}
use qkt_data_hub.Schema.Order.{
  Dependencies, Walk, mark_of, marked, finish, each, visit, order_of, keys_of, fresh_walk,
}
use qkt_data_hub.Schema.Order.Marks.{visit-eq_ok, each-keeps, mark_of-marked, mark_of-finish}

-- one derived field reads another, over one step or several
pub data Steps (deps : Dependencies) (a : Text) : Text → Type 0 where
  one : (names : List Text) (b : Text) → lookup a deps ≡ some names → Among b names → Steps deps a b
  more :
      (b : Text) (names : List Text) (c : Text)
      → Steps deps a b
      → lookup b deps ≡ some names
      → Among c names
      → Steps deps a c

-- a name that is open after the visit was open before
Closes : Walk → Walk → Type 0
Closes w v = (m : Text) → mark_of v m ≡ 1 → mark_of w m ≡ 1

Closes-explored :
    (name : Text) (w between : Walk)
    → Closes (marked 1 name w) between
    → Closes w (finish name between)
unfolding Closes
Closes-explored name w between k m h =
    ground (arith, k m, mark_of-marked 1 name m w, mark_of-finish name m between)

module _ (deps : Dependencies) where
  visit-Closes :
      (depth : ℕ) (name : Text) (w v : Walk) → visit depth deps name w ≡ ok v → Closes w v
  unfolding Closes
  visit-Closes zero name w v h = elim (visit-eq_ok zero deps name w h) [
    | inl (d, e) ↦ subst (Closes w) e (λ m k. k)
    | inr x ↦ absurd (omega (arith, x.depth_is))
  ]
  visit-Closes (suc depth) name w v h = elim (visit-eq_ok (suc depth) deps name w h) [
    | inl (d, e) ↦ subst (Closes w) e (λ m k. k)
    | inr x ↦
        let same : x.shallower ≡ depth = omega (arith, x.depth_is) in
        let visited =
          subst (λ n. each (visit n deps) (sorted_set x.names) (marked 1 name w) ≡ ok x.between)
            same x.visited in
        subst (Closes w) x.finished (
          Closes-explored name w x.between (
            each-keeps Closes (visit depth deps) (λ u m k. k) (λ t u v f g m k. f m (g m k))
              (visit-Closes depth) (sorted_set x.names) (marked 1 name w) x.between visited))
  ]

  -- every open name leads to this one
  abbrev LeadsTo : Walk → Text → Type 0
  LeadsTo w name = (m : Text) → mark_of w m ≡ 1 → Steps deps m name

  abbrev Cycle : Type 0
  Cycle = (n : Text) × Steps deps n n

  each-Cycle :
      (depth : ℕ)
      → ((name : Text) (w : Walk)
          → LeadsTo w name
          → visit depth deps name w ≡ err schema_error
          → Cycle)
      → (names : List Text) (w : Walk) → All (LeadsTo w) names
      → each (visit depth deps) names w ≡ err schema_error
      → Cycle
  unfolding each Closes
  each-Cycle depth found [] w l h = cc
  each-Cycle depth found (name ∷ names) w l h = elim (>>=-eq_err (visit depth deps name w) _ h) [
    | inl p ↦ found name w l.0 p
    | inr (u, p, q) ↦
        let closed = visit-Closes depth name w u p in
        each-Cycle depth found names u
          (All-imp (LeadsTo w) (LeadsTo u) names (λ n f m k. f m (closed m k)) l.1) q
  ]

  reads-LeadsTo :
      (name : Text) (names : List Text) (w : Walk)
      → lookup name deps ≡ some names
      → LeadsTo w name
      → All (LeadsTo (marked 1 name w)) (sorted_set names)
  reads-LeadsTo name names w reads l =
      All-imp (λ n. Among n (sorted_set names)) (LeadsTo (marked 1 name w)) (sorted_set names)
        (λ n a m k. elim (Bool-cases (text_eq name m)) [
          | inl e ↦
              subst (λ t. Steps deps t n) ((text_eq_iff name m).0 e)
                (one names n reads (sorted_set-Among n names a))
          | inr e ↦
              let before : mark_of w m ≡ 1 = sym (mark_of-marked 1 name m w ∙ rw e refl) ∙ k in
              more name names n (l m before) reads (sorted_set-Among n names a)
        ])
        (All-Among (sorted_set names))

  visit-Cycle :
      (depth : ℕ) (name : Text) (w : Walk)
      → LeadsTo w name
      → visit depth deps name w ≡ err schema_error
      → Cycle
  unfolding visit
  visit-Cycle zero name w l h = elim (Bool-cases (mark_of w name == 2)) [
    | inl d ↦ cc (rw d at h)
    | inr d ↦ elim (Bool-cases (mark_of w name == 1)) [
      | inl o ↦ (name, l name (ground arith))
      | inr o ↦ cc (rw (d, o) at h)
    ]
  ]
  visit-Cycle (suc depth) name w l h = elim (Bool-cases (mark_of w name == 2)) [
    | inl d ↦ cc (rw d at h)
    | inr d ↦ elim (Bool-cases (mark_of w name == 1)) [
      | inl o ↦ (name, l name (ground arith))
      | inr o ↦ elim (>>=-eq_err (or_raise key_error (lookup name deps)) _ (rw (d, o) at h)) [
        | inl p ↦ let (unread, e) = or_raise-eq_err key_error (lookup name deps) p in cc
        | inr (names, p, q) ↦
            elim (>>=-eq_err (each (visit depth deps) (sorted_set names) (marked 1 name w)) _ q) [
              | inr (v, r, s) ↦ cc
              | inl r ↦
                  each-Cycle depth (visit-Cycle depth) (sorted_set names) (marked 1 name w)
                    (reads-LeadsTo name names w (or_raise-eq_ok key_error _ p) l) r
            ]
      ]
    ]
  ]

  -- the visits of `_derived_order`, from a state without marks
  pub order_of-Cycle : order_of deps ≡ err schema_error → (n : Text) × Steps deps n n
  unfolding order_of mark_of lookup
  order_of-Cycle h =
      let names = sorted_set (keys_of deps) in
      elim (>>=-eq_err (each (visit (length deps) deps) names fresh_walk) _ h) [
        | inr (w, p, q) ↦ cc
        | inl p ↦
            each-Cycle (length deps) (visit-Cycle (length deps)) names fresh_walk
              (All-imp (λ n. Among n names) (LeadsTo fresh_walk) names
                (λ n a m k. absurd (omega (arith, k))) (All-Among names))
              p
      ]
