-- ===== src/Core/Coverage/Future.antt =====
-- Controls behind the watermark neither activate a root nor cover a span.
use codex_context_guard.Base.{
  ℕ, ◌<◌, ◌≡◌, refl, Bool, true, false, ◌&&◌, Option, none, some, List, [], ◌∷◌, ◌++◌, Text,
  text_eq, nat_eq, ◌==◌, leb, keep, arith,
}
use codex_context_guard.Core.Spans.{get_source, source_matches}
use codex_context_guard.Core.Model.{Source, Requirement, RootControl, Coverage, Span}
use codex_context_guard.Core.Coverage.{
  active_root_ids, covered_by, interpreted_error, interpreted_errors, unit_in,
}

-- A test that a row fails does not see it.
keep-middle :
    {A : Type 0} (p : A → Bool) (xs ys : List A) (x : A)
    → p x ≡ false
    → keep p (xs ++ x ∷ ys) ≡ keep p (xs ++ ys)
keep-middle p [] ys x h = rw h
keep-middle p (y ∷ xs) ys x h = rw (keep-middle p xs ys x h)

late_test : (w s : ℕ) (b : Bool) → w < s → (leb s w && b) ≡ false
late_test w s b h = ground arith

module _ (watermark : ℕ) (xs ys : List RootControl) (late : RootControl)
    (behind : watermark < late.seq) where
  pub active_root_ids-future :
      (revision : ℕ) (units : List Text) (sources : List Source) (requirements : List Requirement)
      → active_root_ids watermark revision units sources requirements (xs ++ late ∷ ys)
        ≡ active_root_ids watermark revision units sources requirements (xs ++ ys)
  unfolding active_root_ids
  active_root_ids-future revision units sources requirements = rw (
      keep-middle
        (λ (c : RootControl).
          leb c.seq watermark && unit_in units (get_source c.source.source_id sources))
        xs ys late (late_test watermark late.seq _ behind))

  covered_by-future :
      (sources : List Source) (explained : List Requirement) (span : Span)
      → covered_by watermark sources explained (xs ++ late ∷ ys) span
        ≡ covered_by watermark sources explained (xs ++ ys) span
  unfolding covered_by
  covered_by-future sources explained span = rw (
      keep-middle
        (λ (c : RootControl).
          leb c.seq watermark
          && c.source.source_id == span.source_id
          && source_matches c.source sources true)
        xs ys late (ground arith))

  interpreted_error-future :
      (units : List Text) (sources : List Source) (explained : List Requirement) (c : Coverage)
      (o : Option Source)
      → interpreted_error watermark units sources explained (xs ++ late ∷ ys) c o
        ≡ interpreted_error watermark units sources explained (xs ++ ys) c o
  unfolding interpreted_error
  interpreted_error-future units sources explained c none = refl
  interpreted_error-future units sources explained c (some source) =
      simp (covered_by-future sources explained c.source)

  pub interpreted_errors-future :
      (units : List Text) (sources : List Source) (explained : List Requirement)
      (coverage : List Coverage)
      → interpreted_errors watermark units sources explained (xs ++ late ∷ ys) coverage
        ≡ interpreted_errors watermark units sources explained (xs ++ ys) coverage
  unfolding interpreted_errors
  interpreted_errors-future units sources explained [] = refl
  interpreted_errors-future units sources explained (c ∷ rest) = rw (
    interpreted_error-future units sources explained c (get_source c.source.source_id sources),
    interpreted_errors-future units sources explained rest,
  )
