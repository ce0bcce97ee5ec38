-- ===== src/Core/Index/Laws.antt =====
-- What `_index` accepts and keeps, and what a row beyond the watermark changes: nothing.
use codex_context_guard.Base.{
  ℕ, ◌<◌, ◌≤◌, ◌≡◌, refl, Bool, true, false, not, ◌&&◌, some, List, [], ◌∷◌, ◌++◌, arith, leb, Text,
  contains, text_eq, if◌then◌else◌, ok, raise, duplicate_identity, keep, keep-append, length, all,
  ap,
}
use codex_context_guard.Base.Texts.Distinct.{contains-append}
use codex_context_guard.Core.Index.{get, ids, index, index_from, distinct}

abbrev fresh : List Text → List Text → Bool
fresh seen keys = all (λ k. not (contains seen k)) keys

fresh-cons :
    (k : Text) (seen keys : List Text)
    → fresh (k ∷ seen) keys ≡ (not (contains keys k) && fresh seen keys)
fresh-cons k seen [] = refl
fresh-cons k seen (x ∷ keys) = ground (arith, fresh-cons k seen keys)

fresh-nil : (keys : List Text) → fresh [] keys ≡ true
fresh-nil [] = refl
fresh-nil (x ∷ keys) = fresh-nil keys

contains-middle :
    (j k : Text) (xs ys : List Text) → contains (xs ++ k ∷ ys) j ≡ contains (k ∷ xs ++ ys) j
contains-middle j k [] ys = refl
contains-middle j k (x ∷ xs) ys = ground (arith, contains-middle j k xs ys)

pub distinct-middle :
    (k : Text) (xs ys : List Text)
    → contains (xs ++ ys) k ≡ false
    → distinct (xs ++ k ∷ ys) ≡ distinct (xs ++ ys)
distinct-middle k [] ys h = ground arith
distinct-middle k (x ∷ xs) ys h = ground (arith, distinct-middle k xs ys, contains-middle x k xs ys)

module _ {A : Type 0} (id : A → Text) where
  -- How many rows are not in a set: what falls while a loop puts their ids into it.
  abbrev pub outside : List Text → List A → ℕ
  outside units rows = length (keep (λ r. not (contains units (id r))) rows)

  pub outside_mono :
      (extra units : List Text) (rows : List A) → outside (extra ++ units) rows ≤ outside units rows
  outside_mono extra units [] = omega arith
  outside_mono extra units (r ∷ rows) =
      ground (arith, outside_mono extra units rows, contains-append extra units (id r))

  pub outside-le-length : (units : List Text) (rows : List A) → outside units rows ≤ length rows
  outside-le-length units [] = omega arith
  outside-le-length units (r ∷ rows) = ground (arith, outside-le-length units rows)

  pub outside_visit :
      (visited : List Text) (rows : List A) (p : Text) (row : A)
      → get id p rows ≡ some row
      → contains visited p ≡ false
      → outside (p ∷ visited) rows < outside visited rows
  unfolding get
  outside_visit visited [] p row h n = cc
  outside_visit visited (r ∷ rows) p row h n =
      ground (arith, outside_visit visited rows p row, outside_mono (p ∷ []) visited rows)

module _ {A : Type 0} (id : A → Text) where
  pub ids-append : (xs ys : List A) → ids id (xs ++ ys) ≡ ids id xs ++ ids id ys
  ids-append [] ys = refl
  ids-append (x ∷ xs) ys = ap (λ t. id x ∷ t) (ids-append xs ys)

  module _ (seq : A → ℕ) (watermark : ℕ) where
    index_from-eq :
        (seen : List Text) (rows : List A)
        → index_from id seq watermark seen rows ≡ (
            if distinct (ids id rows) && fresh seen (ids id rows)
            then ok (keep (λ row. leb (seq row) watermark) rows)
            else raise duplicate_identity)
    unfolding index_from
    index_from-eq seen [] = refl
    index_from-eq seen (row ∷ rows) =
        ground (arith, index_from-eq (id row ∷ seen) rows, fresh-cons (id row) seen (ids id rows))

    -- `_index` raises exactly when two rows share an id, rows beyond the watermark included, and
    -- otherwise returns the rows up to the watermark, in their order.
    pub index-eq_distinct :
        (rows : List A)
        → index id seq watermark rows ≡ (
            if distinct (ids id rows)
            then ok (keep (λ row. leb (seq row) watermark) rows)
            else raise duplicate_identity)
    unfolding index
    index-eq_distinct rows = ground (arith, index_from-eq [] rows, fresh-nil (ids id rows))

    -- A row beyond the watermark, under an id of its own, leaves the result of `_index` as it is,
    -- wherever it stands.
    pub index-future :
        (xs ys : List A) (row : A)
        → contains (ids id (xs ++ ys)) (id row) ≡ false
        → watermark < seq row
        → index id seq watermark (xs ++ row ∷ ys) ≡ index id seq watermark (xs ++ ys)
    index-future xs ys row unused late = ground (
      arith,
      index-eq_distinct (xs ++ row ∷ ys),
      index-eq_distinct (xs ++ ys),
      ids-append xs ys,
      ids-append xs (row ∷ ys),
      distinct-middle (id row) (ids id xs) (ids id ys),
      keep-append (λ r. leb (seq r) watermark) xs ys,
      keep-append (λ r. leb (seq r) watermark) xs (row ∷ ys),
    )
