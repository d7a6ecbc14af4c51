-- ===== src/Spec/Mutations.antt =====
-- What `Mutation::validate` of catalog/models.rs accepts.
use planar.Base.{ℕ, ◌+◌, ◌≤◌, String, ◌≡◌, refl, ◌↔◌, false, not, List, [], ◌∷◌, arith, All, leb}
use planar.Base.Eq.{Eq, nat_eq, string_eq, contains, Distinct, unseen-cons, unseen_join, unseen-nil}
use planar.Base.Except.{ok, guard-eq-ok, >>=-eq-ok}
use planar.Spec.{
  Mutation, MutationOp, append_files, delete_files, update_schema, set_properties,
  remove_properties, reject_repeats, validate_ops, validate_mutation,
}

module _ {A : Type 0} ⦃e : Eq A⦄ (duplicate : String) where
  repeats_forth :
      (seen xs : List A)
      → reject_repeats duplicate seen xs ≡ ok tt
      → All (λ x. contains seen x ≡ false) xs × Distinct xs
  unfolding reject_repeats
  repeats_forth seen [] h = (tt, tt)
  repeats_forth seen (x ∷ xs) h =
      let (new, h') = guard-eq-ok (not (contains seen x)) _ _ h in
      let (unseen, distinct) = repeats_forth (x ∷ seen) xs h' in
      let (fresh, others) = unseen-cons x seen xs unseen in
      ((ground arith, others), (fresh, distinct))

  repeats_back :
      (seen xs : List A)
      → All (λ x. contains seen x ≡ false) xs
      → Distinct xs
      → reject_repeats duplicate seen xs ≡ ok tt
  unfolding reject_repeats
  repeats_back seen [] u d = refl
  repeats_back seen (x ∷ xs) u d =
      rw u.0 (repeats_back (x ∷ seen) xs (unseen_join x seen xs d.0 u.1) d.1)

module _ {Value Map : Type 0} where
  abbrev pub schema_updates : List (MutationOp Value Map) → ℕ
  schema_updates [] = 0
  schema_updates (update_schema _ ∷ ops) = 1 + schema_updates ops
  schema_updates (append_files _ ∷ ops) = schema_updates ops
  schema_updates (delete_files _ ∷ ops) = schema_updates ops
  schema_updates (set_properties _ ∷ ops) = schema_updates ops
  schema_updates (remove_properties _ ∷ ops) = schema_updates ops

  abbrev pub property_sets : List (MutationOp Value Map) → ℕ
  property_sets [] = 0
  property_sets (set_properties _ ∷ ops) = 1 + property_sets ops
  property_sets (append_files _ ∷ ops) = property_sets ops
  property_sets (delete_files _ ∷ ops) = property_sets ops
  property_sets (update_schema _ ∷ ops) = property_sets ops
  property_sets (remove_properties _ ∷ ops) = property_sets ops

  -- No UUID is deleted twice by one operation, and no key removed twice.
  abbrev pub NoRepeats : MutationOp Value Map → Type 0
  NoRepeats (delete_files uuids) = Distinct uuids
  NoRepeats (remove_properties keys) = Distinct keys
  NoRepeats (append_files _) = Unit
  NoRepeats (update_schema _) = Unit
  NoRepeats (set_properties _) = Unit

  ops_forth :
      (u s : ℕ) (ops : List (MutationOp Value Map))
      → u ≤ 1
      → s ≤ 1
      → validate_ops u s ops ≡ ok tt
      → (u + schema_updates ops ≤ 1) × (s + property_sets ops ≤ 1) × All NoRepeats ops
  unfolding validate_ops
  ops_forth u s [] p q h = (omega arith, omega arith, tt)
  ops_forth u s (update_schema spec ∷ ops) p q h =
      let (one, h') = guard-eq-ok (leb (u + 1) 1) _ _ h in
      let (a, b, c) = ops_forth (u + 1) s ops (ground arith) q h' in (omega arith, b, (tt, c))
  ops_forth u s (set_properties m ∷ ops) p q h =
      let (one, h') = guard-eq-ok (leb (s + 1) 1) _ _ h in
      let (a, b, c) = ops_forth u (s + 1) ops p (ground arith) h' in (a, omega arith, (tt, c))
  ops_forth u s (delete_files uuids ∷ ops) p q h =
      let (_, ran, h') = >>=-eq-ok (reject_repeats _ [] uuids) _ h in
      let (a, b, c) = ops_forth u s ops p q h' in (a, b, ((repeats_forth _ [] uuids ran).1, c))
  ops_forth u s (remove_properties keys ∷ ops) p q h =
      let (_, ran, h') = >>=-eq-ok (reject_repeats _ [] keys) _ h in
      let (a, b, c) = ops_forth u s ops p q h' in (a, b, ((repeats_forth _ [] keys ran).1, c))
  ops_forth u s (append_files files ∷ ops) p q h =
      let (a, b, c) = ops_forth u s ops p q h in (a, b, (tt, c))

  ops_back :
      (u s : ℕ) (ops : List (MutationOp Value Map))
      → u + schema_updates ops ≤ 1
      → s + property_sets ops ≤ 1
      → All NoRepeats ops
      → validate_ops u s ops ≡ ok tt
  unfolding validate_ops
  ops_back u s [] p q r = refl
  ops_back u s (update_schema spec ∷ ops) p q r =
      ground (arith, ops_back (u + 1) s ops (omega arith) q r.1)
  ops_back u s (set_properties m ∷ ops) p q r =
      ground (arith, ops_back u (s + 1) ops p (omega arith) r.1)
  ops_back u s (delete_files uuids ∷ ops) p q r =
      rw (repeats_back _ [] uuids (unseen-nil uuids) r.0) (ops_back u s ops p q r.1)
  ops_back u s (remove_properties keys ∷ ops) p q r =
      rw (repeats_back _ [] keys (unseen-nil keys) r.0) (ops_back u s ops p q r.1)
  ops_back u s (append_files files ∷ ops) p q r = ops_back u s ops p q r.1

  -- A mutation is accepted exactly when it updates the schema at most once, sets the properties at
  -- most once, and no delete names a file twice and no removal a key twice.
  pub validate_mutation_iff :
      (m : Mutation Value Map)
      → (validate_mutation m ≡ ok tt) ↔ (
          (schema_updates m.operations ≤ 1)
          × (property_sets m.operations ≤ 1)
          × All NoRepeats m.operations)
  unfolding validate_mutation
  validate_mutation_iff m = (
    λ h.
        (let (a, b, c) = ops_forth 0 0 m.operations (omega arith) (omega arith) h in
          (omega arith, omega arith, c)),
    λ h. ops_back 0 0 m.operations (omega (arith, h.0)) (omega (arith, h.1)) h.2,
  )
