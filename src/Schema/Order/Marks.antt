-- ===== src/Schema/Order/Marks.antt =====
-- What a visit leaves of the marks: a name that is open stays open, and one that is done stays done.
use qkt_data_hub.Prelude.{
  ℕ, zero, suc, ◌≡◌, refl, false, some, List, [], ◌∷◌, Result, ok, >>=-eq-ok, ok_inj, key_error,
  ◌==◌, if◌then◌else◌, Bool-cases, inl, inr, ◌⊎◌, arith,
}
use mathlib.Core.Path.{subst}
use qkt_data_hub.Prelude.Text.{Text, text_eq, text_eq_iff}
use qkt_data_hub.Prelude.Dict.{lookup, lookup-insert, text_key}
use qkt_data_hub.Prelude.Sets.{sorted_set}
use qkt_data_hub.Schema.{or_raise}
use qkt_data_hub.Schema.Valid.{or_raise-eq_ok}
use qkt_data_hub.Schema.Order.{Dependencies, Walk, mark_of, marked, finish, each, visit}

pub mark_of-marked :
    (mark : ℕ) (name other : Text) (w : Walk)
    → mark_of (marked mark name w) other ≡ (if text_eq name other then mark else mark_of w other)
unfolding mark_of
mark_of-marked mark name other w = elim (Bool-cases (text_eq name other)) [
  | inl e ↦ rw (lookup-insert name other mark w.state, e) refl
  | inr e ↦ rw (lookup-insert name other mark w.state, e) refl
]

pub mark_of-finish :
    (name other : Text) (w : Walk)
    → mark_of (finish name w) other ≡ (if text_eq name other then 2 else mark_of w other)
unfolding mark_of
mark_of-finish name other w = elim (Bool-cases (text_eq name other)) [
  | inl e ↦ rw (lookup-insert name other 2 w.state, e) refl
  | inr e ↦ rw (lookup-insert name other 2 w.state, e) refl
]

-- Of the marks before and after: only one that is 0 may change.
abbrev pub Keeps : Walk → Walk → Type 0
Keeps w v = (m : Text) → (mark_of w m ≡ 1 → mark_of v m ≡ 1) × (mark_of w m ≡ 2 → mark_of v m ≡ 2)

pub Keeps-refl : (w : Walk) → Keeps w w
Keeps-refl w m = (λ h. h, λ h. h)

pub Keeps-trans : (u v w : Walk) → Keeps u v → Keeps v w → Keeps u w
Keeps-trans u v w h k m = (λ e. (k m).0 ((h m).0 e), λ e. (k m).1 ((h m).1 e))

-- `visit` on a name that was neither open nor done: all that it reads was visited between the opening
-- of the name and its finish.
pub record Explored (depth : ℕ) (deps : Dependencies) (name : Text) (w v : Walk) : Type 0 where
  pub shallower : ℕ
  pub depth_is : depth ≡ suc shallower
  pub names : List Text
  pub between : Walk
  pub not_done : (mark_of w name == 2) ≡ false
  pub not_open : (mark_of w name == 1) ≡ false
  pub reads : lookup name deps ≡ some names
  pub visited : each (visit shallower deps) (sorted_set names) (marked 1 name w) ≡ ok between
  pub finished : finish name between ≡ v

pub visit-eq_ok :
    (depth : ℕ) (deps : Dependencies) (name : Text) (w : Walk) {v : Walk}
    → visit depth deps name w ≡ ok v
    → ((mark_of w name ≡ 2) × (w ≡ v)) ⊎ Explored depth deps name w v
unfolding visit
visit-eq_ok zero deps name w h = elim (Bool-cases (mark_of w name == 2)) [
  | inl d ↦ inl (ground arith, ok_inj (rw d at h))
  | inr d ↦ elim (Bool-cases (mark_of w name == 1)) [
    | inl o ↦ cc (rw (d, o) at h)
    | inr o ↦ cc (rw (d, o) at h)
  ]
]
visit-eq_ok (suc depth) deps name w h = elim (Bool-cases (mark_of w name == 2)) [
  | inl d ↦ inl (ground arith, ok_inj (rw d at h))
  | inr d ↦ elim (Bool-cases (mark_of w name == 1)) [
    | inl o ↦ cc (rw (d, o) at h)
    | inr o ↦
        let (names, p, q) = >>=-eq-ok (or_raise key_error (lookup name deps)) _ (rw (d, o) at h) in
        let (between, r, s) =
          >>=-eq-ok (each (visit depth deps) (sorted_set names) (marked 1 name w)) _ q in
        inr (record {
          shallower = depth;
          depth_is = refl;
          names = names;
          between = between;
          not_done = d;
          not_open = o;
          reads = or_raise-eq_ok key_error _ p;
          visited = r;
          finished = ok_inj s;
        })
  ]
]

-- A relation that every visit keeps, and that composes, a loop of visits keeps.
pub each-keeps :
    (R : Walk → Walk → Type 0) (go : Text → Walk → Result Walk)
    → ((w : Walk) → R w w)
    → ((u v w : Walk) → R u v → R v w → R u w)
    → ((name : Text) (w v : Walk) → go name w ≡ ok v → R w v)
    → (names : List Text) (w v : Walk) → each go names w ≡ ok v
    → R w v
unfolding each
each-keeps R go same join one [] w v h = subst (λ x. R w x) (ok_inj h) (same w)
each-keeps R go same join one (name ∷ names) w v h =
    let (u, p, q) = >>=-eq-ok (go name w) _ h in
    join w u v (one name w u p) (each-keeps R go same join one names u v q)

-- opening a new name, keeping the marks meanwhile, and finishing it
Keeps-explored :
    (name : Text) (w between : Walk)
    → (mark_of w name == 2) ≡ false
    → (mark_of w name == 1) ≡ false
    → Keeps (marked 1 name w) between
    → Keeps w (finish name between)
Keeps-explored name w between d o k m = elim (Bool-cases (text_eq name m)) [
  | inl e ↦
      let same = (text_eq_iff name m).0 e in
      let not_done = subst (λ t. (mark_of w t == 2) ≡ false) same d in
      let not_open = subst (λ t. (mark_of w t == 1) ≡ false) same o in ground arith
  | inr e ↦
      ground (arith, mark_of-marked 1 name m w, mark_of-finish name m between, (k m).0, (k m).1)
]

pub visit-Keeps :
    (depth : ℕ) (deps : Dependencies) (name : Text) (w v : Walk)
    → visit depth deps name w ≡ ok v
    → Keeps w v
visit-Keeps zero deps name w v h = elim (visit-eq_ok zero deps name w h) [
  | inl (d, e) ↦ subst (Keeps w) e (Keeps-refl w)
  | inr x ↦ absurd (omega (arith, x.depth_is))
]
visit-Keeps (suc depth) deps name w v h = elim (visit-eq_ok (suc depth) deps name w h) [
  | inl (d, e) ↦ subst (Keeps w) e (Keeps-refl w)
  | inr x ↦
      let same : x.shallower ≡ depth = omega (arith, x.depth_is) in
      let visited =
        subst (λ n. each (visit n deps) (sorted_set x.names) (marked 1 name w) ≡ ok x.between) same
          x.visited in
      subst (Keeps w) x.finished (
        Keeps-explored name w x.between x.not_done x.not_open (
          each-keeps Keeps (visit depth deps) Keeps-refl Keeps-trans (visit-Keeps depth deps)
            (sorted_set x.names) (marked 1 name w) x.between visited))
]

pub each-Keeps :
    (depth : ℕ) (deps : Dependencies) (names : List Text) (w v : Walk)
    → each (visit depth deps) names w ≡ ok v
    → Keeps w v
each-Keeps depth deps =
    each-keeps Keeps (visit depth deps) Keeps-refl Keeps-trans (visit-Keeps depth deps)
