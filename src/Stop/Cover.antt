-- ===== src/Stop/Cover.antt =====
-- scripts/cg_stop3.py: what covers the subjects of a fulfilled obligation.
use codex_context_guard.Base.{
  ◌≡◌, refl, ap, sym, subst, ◌∙◌, true, false, List, [], ◌∷◌, Text, text_eq, ◌==◌, ==_self,
  contains, all, any, raise_if, unicode_encode_error, keep, All, after_ok, ◌>>=◌, if◌then◌else◌, ok,
  ok_injective, arith, inl, inr, ◌⊎◌, Bool-cases,
}
use codex_context_guard.Base.Json.{Json, Members, get, is_text}
use codex_context_guard.Base.Texts.{codes, text_leb, sorted_set, is_surrogate}
use codex_context_guard.Base.Texts.Distinct.{contains-Permᴰ}
use codex_context_guard.Base.Sorting.Keep.{text_leb-IsOrder}
use codex_context_guard.Base.Sorting.Order.{sort_permutes}
use codex_context_guard.Base.Sorting.{sort}
use codex_context_guard.Stop.Records.{Reason, Verdict, Match}
use codex_context_guard.Stop.Candidates.{
  Candidate, covering, cover_by, cover_from, candidates_of, unique_candidate_cover, verdict_of,
  subjects_of,
}
use codex_context_guard.Stop.Matcher.{match_obligation, required_of, binding_field, is_expected}

abbrev unique : Reason
unique = Reason.unique_deterministic_evidence

-- One record covers the subject, and it is among the chosen.
abbrev pub Covered : List Candidate → List Text → Text → Type 0
Covered candidates chosen subject =
    (id : Text) × (covering candidates subject ≡ id ∷ []) × (contains chosen id ≡ true)

pub contains-sort : (xs : List Text) (a : Text) → contains (sort text_leb xs) a ≡ contains xs a
contains-sort xs a = sym (contains-Permᴰ a (sort_permutes text_leb text_leb-IsOrder xs))

-- A subject that does not end the cover has one record.
one_record :
    (found : List Text) (next : Text → List Text × Reason) (selected : List Text)
    → cover_by found next ≡ (selected, unique)
    → (id : Text) × (found ≡ id ∷ []) × (next id ≡ (selected, unique))
one_record [] next selected h = cc (ap (λ p. p.1) h)
one_record (id ∷ []) next selected h = (id, refl, h)
one_record (id ∷ other ∷ ids) next selected h = cc (ap (λ p. p.1) h)

abbrev choose : List Text → Text → List Text
choose chosen id = if contains chosen id then chosen else id ∷ chosen

choose-new : (chosen : List Text) (id : Text) → contains (choose chosen id) id ≡ true
choose-new chosen id = ground (arith, ==_self id)

choose-kept :
    (chosen : List Text) (id other : Text)
    → contains chosen other ≡ true
    → contains (choose chosen id) other ≡ true
choose-kept chosen id other h = ground arith

-- What has been chosen is selected.
cover_from-kept :
    (candidates : List Candidate) (chosen required : List Text) (selected : List Text) (id : Text)
    → cover_from candidates chosen required ≡ (selected, unique)
    → contains chosen id ≡ true
    → contains selected id ≡ true
unfolding cover_from
cover_from-kept candidates chosen [] selected id h c =
    subst (λ xs. contains xs id ≡ true) (ap (λ p. p.0) h) (contains-sort chosen id ∙ c)
cover_from-kept candidates chosen (subject ∷ required) selected id h c =
    let (new, found, rest) =
      one_record (covering candidates subject)
        (λ x. cover_from candidates (choose chosen x) required) selected h in
    cover_from-kept candidates (choose chosen new) required selected id rest
      (choose-kept chosen new id c)

cover_from-Covered :
    (candidates : List Candidate) (chosen required : List Text) (selected : List Text)
    → cover_from candidates chosen required ≡ (selected, unique)
    → All (Covered candidates selected) required
unfolding cover_from
cover_from-Covered candidates chosen [] selected h = tt
cover_from-Covered candidates chosen (subject ∷ required) selected h =
    let (new, found, rest) =
      one_record (covering candidates subject)
        (λ x. cover_from candidates (choose chosen x) required) selected h in
    (
      (
        new,
        found,
        cover_from-kept candidates (choose chosen new) required selected new rest
            (choose-new chosen new),
      ),
      cover_from-Covered candidates (choose chosen new) required selected rest,
    )

-- The records that may cover, for a field: those that bind nothing but what is required, when the
-- field is that of readbacks.
pub Offers : List Json → List Text → Text → List Candidate → Type 0
Offers entries required field offered =
    (candidates : List Candidate) × (candidates_of field entries ≡ ok candidates)
    × (offered ≡ (
        if field == codes "subject_ids"
        then candidates
        else keep (λ c. all (contains required) c.1) candidates))

unique_candidate_cover-Covered :
    (entries : List Json) (required : List Text) (field : Text) (selected : List Text)
    → unique_candidate_cover entries required field ≡ ok (selected, unique)
    → (offered : List Candidate) × Offers entries required field offered
      × All (Covered offered selected) required
unfolding unique_candidate_cover Offers
unique_candidate_cover-Covered entries required field selected h =
    after_ok (candidates_of field entries) _ h (λ candidates e done.
      (_, (candidates, e, refl), cover_from-Covered _ [] required selected (ok_injective done)))

-- Every required subject has exactly one record among those that may cover, and it is selected.
Covers : List Json → List Text → Text → List Text → Type 0
Covers entries required field selected =
    (offered : List Candidate) × Offers entries required field offered
    × All (Covered offered selected) required

pending-ne-fulfilled : Match.pending ≡ Match.fulfilled → ⊥
pending-ne-fulfilled e = cc

missing-ne-unique : Reason.subject_binding_missing ≡ unique → ⊥
missing-ne-unique e = cc

is_unique :
    (cover : List Text × Reason) (wanted : Text) (v : Verdict)
    → verdict_of wanted cover ≡ v
    → v.outcome ≡ Match.fulfilled
    → cover ≡ (v.selected_evidence, unique)
unfolding verdict_of
is_unique (selected, Reason.unique_deterministic_evidence) wanted v e f =
    ap (λ (u : Verdict). (u.selected_evidence, unique)) e
is_unique (selected, reason) wanted v e f =
    absurd (pending-ne-fulfilled (ap (λ (u : Verdict). u.outcome) e ∙ f))

covers :
    (entries : List Json) (required : List Text) (field wanted : Text) (v : Verdict)
    → (unique_candidate_cover entries required field >>= λ cover. ok (verdict_of wanted cover))
      ≡ ok v
    → v.outcome ≡ Match.fulfilled
    → Covers entries required field v.selected_evidence
unfolding Covers verdict_of
covers entries required field wanted v h f =
    after_ok (unique_candidate_cover entries required field) _ h (λ cover cover_e done.
      let same : cover ≡ (v.selected_evidence, unique) =
        is_unique cover wanted v (ok_injective done) f in
      unique_candidate_cover-Covered entries required field v.selected_evidence
        (cover_e ∙ ap ok same))

module _ (shown : Json → Text) (list_sha256 : List Text → Text) where
  -- What a fulfilled obligation has: the subjects that it names are covered, or it is one of scope, and
  -- the subjects that were observed have the count and the digest that it expects, and are covered.
  pub Fulfils : Members → List Json → List Text → Type 0
  Fulfils row successful selected =
      ((is_text (codes "scope_coverage") (get row (codes "kind")) ≡ false)
        × Covers successful (required_of row)
            (binding_field (get row (codes "kind")) (get row (codes "surface"))) selected)
      ⊎ ((candidates : List Candidate) × (candidates_of (codes "subject_ids") successful
            ≡ ok candidates)
          × (is_expected row (sorted_set (subjects_of candidates))
                (list_sha256 (sorted_set (subjects_of candidates)))
              ≡ true)
          × Covers successful (sorted_set (subjects_of candidates)) (codes "subject_ids") selected)

  -- What a fulfilled verdict on an obligation says of the evidence that it is given.
  pub match_obligation-Fulfils :
      (row : Members) (wanted : Text) (successful : List Json) (v : Verdict)
      → match_obligation shown list_sha256 row wanted successful ≡ ok v
      → v.outcome ≡ Match.fulfilled
      → Fulfils row successful v.selected_evidence
  unfolding match_obligation Fulfils
  match_obligation-Fulfils row wanted successful v h f =
      elim (Bool-cases (is_text (codes "scope_coverage") (get row (codes "kind")))) [
        | inr other ↦ inl (other, covers successful _ _ wanted v (rw other at h) f)
        | inl scope ↦
            after_ok (candidates_of (codes "subject_ids") successful) _ (rw scope at h)
              (λ candidates e encoding.
                after_ok
                  (raise_if (any (any is_surrogate) (sorted_set (subjects_of candidates)))
                    unicode_encode_error)
                  _ encoding
                  (λ encoded encodes rest.
                    elim (Bool-cases (
                      is_expected row (sorted_set (subjects_of candidates))
                        (list_sha256 (sorted_set (subjects_of candidates))))) [
                          | inl good ↦ inr (
                            candidates,
                            e,
                            good,
                            covers successful _ (codes "subject_ids") wanted v (rw good at rest) f,
                          )
                          | inr bad ↦ absurd (
                              missing-ne-unique (
                                ap (λ p. p.1)
                                  (is_unique _ wanted v (ok_injective (rw bad at rest)) f)))
                        ]))
      ]
