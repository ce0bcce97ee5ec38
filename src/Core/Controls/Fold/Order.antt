-- ===== src/Core/Controls/Fold/Order.antt =====
-- The order of the controls, and controls behind the watermark.
use codex_context_guard.Base.{
  ◌<◌, ◌≡◌, refl, sym, ap, ◌∙◌, ◌⊎◌, inl, inr, Bool, true, false, not, List, [], ◌∷◌, ◌++◌, Text,
  text_eq, nat_eq, contains, ltb, keep, arith, Bool-cases,
}
use codex_context_guard.Base.Sorting.{sort}
use codex_context_guard.Base.Sorting.Keep.{IsOrder, keep-sort, text_leb-IsOrder}
use codex_context_guard.Core.Index.{ids}
use codex_context_guard.Core.Index.Laws.{distinct-middle, ids-append}
use codex_context_guard.Core.Model.{RootControl}
use codex_context_guard.Core.Controls.Fold.{
  Fold, Ledger, empty_fold, fold_step, fold_from, fold_root_controls, control_before,
}

control_total : (a b : RootControl) → (control_before a b ≡ true) ⊎ (control_before b a ≡ true)
unfolding control_before
control_total a b = ground (arith, text_leb-IsOrder.total a.id b.id)

control_trans :
    (a b c : RootControl)
    → control_before a b ≡ true
    → control_before b c ≡ true
    → control_before a c ≡ true
unfolding control_before
control_trans a b c h k = ground (arith, text_leb-IsOrder.trans a.id b.id c.id)

pub control_before-IsOrder : IsOrder control_before
control_before-IsOrder = record { total = control_total; trans = control_trans }

abbrev control_id : RootControl → Text
control_id c = c.id

module _ (ledger : Ledger) where
  open ledger use {watermark}

  abbrev is_due : RootControl → Bool
  is_due control = not (ltb watermark control.seq)

  step_late :
      (control : RootControl) (fold : Fold)
      → is_due control ≡ false
      → fold_step ledger control fold ≡ fold
  unfolding fold_step
  step_late control fold h = ground arith

  -- The fold is that of the controls that are due.
  fold_from-keep :
      (controls : List RootControl) (fold : Fold)
      → fold_from ledger controls fold ≡ fold_from ledger (keep is_due controls) fold
  unfolding fold_from
  fold_from-keep [] fold = refl
  fold_from-keep (c ∷ rest) fold = elim (Bool-cases (is_due c)) [
    | inl due ↦ rw due (fold_from-keep rest (fold_step ledger c fold))
    | inr late ↦ rw (late, step_late c fold late) (fold_from-keep rest fold)
  ]

  keep_late :
      (xs ys : List RootControl) (late : RootControl)
      → watermark < late.seq
      → keep is_due (xs ++ late ∷ ys) ≡ keep is_due (xs ++ ys)
  keep_late [] ys late h = ground arith
  keep_late (x ∷ xs) ys late h = ground (arith, keep_late xs ys late h)

  fold_sorted :
      (xs ys : List RootControl) (late : RootControl)
      → watermark < late.seq
      → fold_from ledger (sort control_before (xs ++ late ∷ ys)) empty_fold
        ≡ fold_from ledger (sort control_before (xs ++ ys)) empty_fold
  fold_sorted xs ys late h =
      fold_from-keep (sort control_before (xs ++ late ∷ ys)) empty_fold
      ∙ ap (λ l. fold_from ledger l empty_fold)
          (keep-sort control_before control_before-IsOrder is_due (xs ++ late ∷ ys)
            ∙ ap (sort control_before) (keep_late xs ys late h)
            ∙ sym (keep-sort control_before control_before-IsOrder is_due (xs ++ ys)))
      ∙ sym (fold_from-keep (sort control_before (xs ++ ys)) empty_fold)

  -- A control behind the watermark, under an id of its own, does not change the fold.
  pub fold_root_controls-future :
      (xs ys : List RootControl) (late : RootControl)
      → contains (ids (λ (c : RootControl). c.id) (xs ++ ys)) late.id ≡ false
      → watermark < late.seq
      → fold_root_controls ledger (xs ++ late ∷ ys) ≡ fold_root_controls ledger (xs ++ ys)
  unfolding fold_root_controls
  fold_root_controls-future xs ys late unused h = rw (fold_sorted xs ys late h) (
      ground (
        arith,
        ids-append control_id xs ys,
        ids-append control_id xs (late ∷ ys),
        distinct-middle late.id (ids control_id xs) (ids control_id ys),
      ))
