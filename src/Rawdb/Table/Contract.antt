-- ===== src/Rawdb/Table/Contract.antt =====
-- core/rawdb/table.go: a table, the contract of the database that it wraps, and the keys of others.
use rfqrelayer.Prelude.{
  ◌≡◌, refl, sym, ap, ◌∙◌, ◌⊎◌, inl, inr, true, false, Option, [], ◌∷◌, ◌++◌, arith, Bool-cases,
  Bytes, bytes_eq, bytes_eq_iff, bytes_eq-append, has_prefix, has_prefix-append,
}
use rfqrelayer.Rfqdb.Interfaces.{Database, IsKeyValue, answer, present}
use rfqrelayer.Rawdb.Table.{new_table, table_writer}

module _ {S I : Type 0} {d : Database S I} {IsOpen : S → Type 0} {view : S → Bytes → Option Bytes}
    (laws : IsKeyValue d IsOpen view) where
  -- A table over a key-value database is a key-value database again, whose content at a key is
  -- that of the wrapped database at the prefixed key.
  pub new_table-IsKeyValue :
      (prefix : Bytes) → IsKeyValue (new_table d prefix) IsOpen (λ s k. view s (prefix ++ k))
  unfolding new_table table_writer
  new_table-IsKeyValue prefix = record {
    get_view = λ s k. laws.get_view s (prefix ++ k);
    has_view = λ s k. laws.has_view s (prefix ++ k);
    put_open = λ s k. laws.put_open s (prefix ++ k);
    put_none = λ s k. laws.put_none s (prefix ++ k);
    put_view = λ s k v j o.
        laws.put_view s (prefix ++ k) v (prefix ++ j) o ∙ rw (bytes_eq-append prefix k j);
    delete_open = λ s k. laws.delete_open s (prefix ++ k);
    delete_none = λ s k. laws.delete_none s (prefix ++ k);
    delete_view = λ s k j o.
        laws.delete_view s (prefix ++ k) (prefix ++ j) o ∙ rw (bytes_eq-append prefix k j);
  }

  append-has_prefix :
      (p : Bytes) (k j : Bytes) → has_prefix j p ≡ false → bytes_eq (p ++ k) j ≡ false
  append-has_prefix p k j h = ground (arith, bytes_eq_iff (p ++ k) j, has_prefix-append p k)

  -- Put and Delete of a table leave every key without the prefix as it was.
  pub new_table_frame :
      (prefix : Bytes) (s : S) (k v j : Bytes)
      → IsOpen s
      → has_prefix j prefix ≡ false
      → (view ((new_table d prefix).writer.put s k v).0 j ≡ view s j)
        × (view ((new_table d prefix).writer.delete s k).0 j ≡ view s j)
  unfolding new_table table_writer
  new_table_frame prefix s k v j o h = (
    ground (arith, laws.put_view s (prefix ++ k) v j o, append-has_prefix prefix k j h),
    ground (arith, laws.delete_view s (prefix ++ k) j o, append-has_prefix prefix k j h),
  )

  same_answers :
      (s t : S) (j : Bytes)
      → IsOpen s
      → IsOpen t
      → view t j ≡ view s j
      → (d.get t j ≡ d.get s j) × (d.has t j ≡ d.has s j)
  same_answers s t j o o' e = (
    laws.get_view t j o' ∙ ap answer e ∙ sym (laws.get_view s j o),
    laws.has_view t j o' ∙ ap present e ∙ sym (laws.has_view s j o),
  )

  has_prefix-clash :
      (p q j : Bytes)
      → has_prefix (q ++ j) p ≡ true
      → (has_prefix q p ≡ true) ⊎ (has_prefix p q ≡ true)
  unfolding has_prefix
  has_prefix-clash p [] j h = inr refl
  has_prefix-clash [] (y ∷ q) j h = inl refl
  has_prefix-clash (x ∷ p) (y ∷ q) j h = ground (arith, has_prefix-clash p q j)

  -- Two tables of one database, neither of whose prefixes begins the other, do not see one
  -- another: what Put and Delete do through the one, Get and Has through the other do not notice.
  pub new_table_apart :
      (p q : Bytes) (s : S) (k v j : Bytes)
      → IsOpen s
      → has_prefix q p ≡ false
      → has_prefix p q ≡ false
      → ((new_table d q).get ((new_table d p).writer.put s k v).0 j ≡ (new_table d q).get s j)
        × ((new_table d q).has ((new_table d p).writer.put s k v).0 j ≡ (new_table d q).has s j)
        × ((new_table d q).get ((new_table d p).writer.delete s k).0 j ≡ (new_table d q).get s j)
        × ((new_table d q).has ((new_table d p).writer.delete s k).0 j ≡ (new_table d q).has s j)
  unfolding new_table table_writer
  new_table_apart p q s k v j o hq hp =
      let other : has_prefix (q ++ j) p ≡ false = elim (Bool-cases (has_prefix (q ++ j) p)) [
        | inl e ↦ absurd (ground (arith, has_prefix-clash p q j e))
        | inr e ↦ e
      ] in
      let (wrote, deleted) = new_table_frame p s k v (q ++ j) o other in
      let after_put = same_answers s _ (q ++ j) o (laws.put_open s (p ++ k) v o) wrote in
      let after_delete = same_answers s _ (q ++ j) o (laws.delete_open s (p ++ k) o) deleted in
      (after_put.0, after_put.1, after_delete.0, after_delete.1)
