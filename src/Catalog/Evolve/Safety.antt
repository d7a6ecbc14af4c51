-- ===== src/Catalog/Evolve/Safety.antt =====
-- The checks of `UpdateSchema` against the rule that they are meant to enforce.
use planar.Base.{
  String, ◌≡◌, ◌≢◌, refl, ◌↔◌, inl, inr, none, some, List, [], ◌∷◌, map, arith, true, Bool-cases,
  All,
}
use planar.Base.Eq.{contains, string_eq, Fresh, Distinct}
use planar.Base.Except.{ok, guard-eq-ok, >>=-eq-ok}
use planar.DataType.{can_evolve_to}
use planar.Spec.{ColumnSpec, SchemaSpec}
use planar.Catalog.Evolve.{
  CurrentColumn, find_column, reject_drops, check_evolution, check_evolutions, validate_evolution,
}
use text.Mathlib.Text.{◌==◌ as str_eq}
use text.Mathlib.TextEquality.{eq_iff}

-- The type may evolve, and a column that may hold nulls still may.
abbrev pub Compatible : CurrentColumn → ColumnSpec → Type 0
Compatible old new =
    (can_evolve_to old.column_type new.column_type ≡ true)
    × (old.is_nullable ≡ true → new.is_nullable ≡ true)

-- The rule: every current column is kept, and every column that is kept is compatible.
pub record Safe (current : List CurrentColumn) (new : List ColumnSpec) : Type 0 where
  pub kept : All (λ old. contains (map (λ n. n.name) new) old.name ≡ true) current
  pub compatible : All (λ n. All (λ old. old.name ≡ n.name → Compatible old n) current) new

abbrev names : List CurrentColumn → List String
names current = map (λ c. c.name) current

find_column-none :
    (name : String) (current : List CurrentColumn)
    → Fresh name (names current)
    → find_column name current ≡ none
unfolding find_column
find_column-none name [] h = refl
find_column-none name (c ∷ rest) h =
    ground (arith, eq_iff c.name name, h.0, find_column-none name rest h.1)

check_evolution_iff :
    (old : CurrentColumn) (new : ColumnSpec)
    → (check_evolution (some old) new ≡ ok tt) ↔ Compatible old new
unfolding check_evolution
check_evolution_iff old new =
    (λ h. (ground arith, λ n. ground arith), λ h. ground (arith, h.0, h.1))

find_column-head :
    (name : String) (c : CurrentColumn) (rest : List CurrentColumn)
    → c.name ≡ name
    → Fresh c.name (names rest)
    → find_column name (c ∷ rest) ≡ some c
unfolding find_column
find_column-head name c rest e fresh =
    ground (arith, eq_iff c.name name, find_column-none name rest (rw⁻¹ e fresh))

find_column-tail :
    (name : String) (c : CurrentColumn) (rest : List CurrentColumn)
    → c.name ≢ name
    → find_column name (c ∷ rest) ≡ find_column name rest
unfolding find_column
find_column-tail name c rest ne = ground (arith, eq_iff c.name name)

unnamed :
    (new : ColumnSpec) (current : List CurrentColumn)
    → Fresh new.name (names current)
    → All (λ old. old.name ≡ new.name → Compatible old new) current
unnamed new [] fresh = tt
unnamed new (c ∷ rest) fresh = (λ e. absurd (fresh.0 e), unnamed new rest fresh.1)

no_column : (new : ColumnSpec) → check_evolution (find_column new.name []) new ≡ ok tt
unfolding check_evolution find_column
no_column new = refl

-- Of columns with distinct names, the map finds the one of the name.
find_column_iff :
    (new : ColumnSpec) (current : List CurrentColumn)
    → Distinct (names current)
    → (check_evolution (find_column new.name current) new ≡ ok tt)
      ↔ All (λ old. old.name ≡ new.name → Compatible old new) current
find_column_iff new [] d = (λ h. tt, λ h. no_column new)
find_column_iff new (c ∷ rest) d = elim (Bool-cases (str_eq c.name new.name)) [
  | inl same ↦
      let e : c.name ≡ new.name = (eq_iff c.name new.name).0 same in
      let fresh : Fresh new.name (names rest) = rw⁻¹ e d.0 in
      let found = find_column-head new.name c rest e d.0 in
      let one = check_evolution_iff c new in
      (λ h. (λ _. one.0 (rw⁻¹ found h), unnamed new rest fresh), λ h. rw found (one.1 (h.0 e)))
  | inr differ ↦
      let ne : c.name ≢ new.name = λ e. ground (arith, eq_iff c.name new.name) in
      let found = find_column-tail new.name c rest ne in
      let more = find_column_iff new rest d.1 in
      (λ h. (λ e. absurd (ne e), more.0 (rw⁻¹ found h)), λ h. rw found (more.1 h.1))
]

reject_drops_iff :
    (new_names : List String) (current : List CurrentColumn)
    → (reject_drops new_names current ≡ ok tt)
      ↔ All (λ old. contains new_names old.name ≡ true) current
unfolding reject_drops
reject_drops_iff new_names [] = (λ h. tt, λ h. refl)
reject_drops_iff new_names (c ∷ rest) =
    let more = reject_drops_iff new_names rest in
    (
      λ h. let (here, h') = guard-eq-ok (contains new_names c.name) _ _ h in (here, more.0 h'),
      λ h. rw h.0 (more.1 h.1),
    )

check_evolutions_iff :
    (current : List CurrentColumn) (new : List ColumnSpec)
    → Distinct (names current)
    → (check_evolutions current new ≡ ok tt)
      ↔ All (λ n. All (λ old. old.name ≡ n.name → Compatible old n) current) new
unfolding check_evolutions
check_evolutions_iff current [] d = (λ h. tt, λ h. refl)
check_evolutions_iff current (n ∷ rest) d =
    let one = find_column_iff n current d in
    let more = check_evolutions_iff current rest d in
    (
      λ h.
          let (_, here, h') = >>=-eq-ok (check_evolution (find_column n.name current) n) _ h in
          (one.0 here, more.0 h'),
      λ h. rw (one.1 h.0) (more.1 h.1),
    )

-- A new schema passes the checks of a schema update exactly if the update is safe: every current
-- column is among the new ones, and every new column with the name of a current one has a type that
-- the current type evolves to, and may hold nulls if the current one may. The names of the current
-- columns are distinct.
pub validate_evolution_iff :
    (current : List CurrentColumn) (spec : SchemaSpec)
    → Distinct (map (λ c. c.name) current)
    → (validate_evolution current spec ≡ ok tt) ↔ Safe current spec.columns
unfolding validate_evolution
validate_evolution_iff current spec d =
    let drops = reject_drops_iff (map (λ c. c.name) spec.columns) current in
    let checks = check_evolutions_iff current spec.columns d in
    (
      λ h.
          let (_, kept, h') =
            >>=-eq-ok (reject_drops (map (λ c. c.name) spec.columns) current) _ h in
          record { kept = drops.0 kept; compatible = checks.0 h' },
      λ h. rw (drops.1 h.kept) (checks.1 h.compatible),
    )
