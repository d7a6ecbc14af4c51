-- ===== src/Db/Fresh.antt =====
-- What a successful insertion shows of the rows before it, and what a search finds.
use planar.Base.{
  Bool, true, false, not, ◌≡◌, refl, some, List, [], ◌∷◌, any, arith, All, inl, inr, Bool-cases,
  some-injective,
}
use planar.Base.Eq.{nat_eq}
use planar.Base.Except.{ok, guard-eq-ok, >>=-eq-ok}
use planar.Db.{
  Db, TableRow, SchemaRow, find, insert_rows, insert_table, insert_schema, table_clash,
  schema_clash,
}

module _ {A : Type 0} (p : A → Bool) where
  -- The row that is found passes the test, and has what all rows have.
  pub find-All {κ} :
      (P : A → Type κ) (xs : List A) {x : A} → All P xs → find p xs ≡ some x → (p x ≡ true) × P x
  unfolding find
  find-All P [] h found = absurd (ground arith)
  find-All P (y ∷ ys) {x} h found = elim (Bool-cases (p y)) [
    | inl passes ↦ let e : y ≡ x = some-injective (rw passes at found) in rw (← e) (passes, h.0)
    | inr fails ↦ find-All P ys h.1 (rw fails at found)
  ]

  pub any-find : (xs : List A) → any p xs ≡ true → (x : A) × (find p xs ≡ some x)
  unfolding find
  any-find [] h = absurd (ground arith)
  any-find (y ∷ ys) h = elim (Bool-cases (p y)) [
    | inl passes ↦ (y, rw passes refl)
    | inr fails ↦ let (x, found) = any-find ys (ground arith) in (x, rw fails found)
  ]

  pub find-any : (xs : List A) {x : A} → find p xs ≡ some x → any p xs ≡ true
  unfolding find
  find-any [] h = absurd (ground arith)
  find-any (y ∷ ys) {x} h = ground (arith, find-any ys {x = x})

-- The row that is found is one of the rows.
pub find-any-other :
    {A : Type 0} (p q : A → Bool) (xs : List A) {x : A}
    → find p xs ≡ some x
    → q x ≡ true
    → any q xs ≡ true
unfolding find
find-any-other p q [] h sat = absurd (ground arith)
find-any-other p q (y ∷ ys) {x} h sat = ground (arith, find-any-other p q ys {x = x})

insert_rows-fresh :
    {A : Type 0} (clash : A → A → Bool) (x : A) (rows : List A) {rows' : List A}
    → insert_rows clash (x ∷ []) rows ≡ ok rows'
    → any (clash x) rows ≡ false
unfolding insert_rows
insert_rows-fresh clash x rows h =
    let (new, rest) = guard-eq-ok (not (any (clash x) rows)) _ _ h in ground arith

module _ (db : Db) {db' : Db} where
  pub insert_table-fresh :
      (row : TableRow) → insert_table row db ≡ ok db' → any (table_clash row) db.tables ≡ false
  unfolding insert_table
  insert_table-fresh row h =
      let (tables, ran, e) = >>=-eq-ok (insert_rows table_clash (row ∷ []) db.tables) _ h in
      insert_rows-fresh table_clash row db.tables ran

  pub insert_schema-fresh :
      (row : SchemaRow) → insert_schema row db ≡ ok db' → any (schema_clash row) db.schemas ≡ false
  unfolding insert_schema
  insert_schema-fresh row h =
      let (rows, ran, e) = >>=-eq-ok (insert_rows schema_clash (row ∷ []) db.schemas) _ h in
      insert_rows-fresh schema_clash row db.schemas ran
