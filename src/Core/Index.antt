-- ===== src/Core/Index.antt =====
-- `_index`, and the dicts that it returns: their rows in order of insertion, each under its own id.
pub mod Laws
use codex_context_guard.Base.{
  ℕ, zero, suc, ◌<◌, ◌≡◌, refl, Bool, true, false, not, ◌&&◌, Option, none, some, List, [], ◌∷◌,
  ◌++◌, arith, leb, Text, ◌==◌, contains, text_eq, if◌then◌else◌, Result, ok, raise,
  duplicate_identity, ◌>>=◌, keep, Bool-cases, inl, inr,
}

-- No text stands twice.
abbrev pub distinct : List Text → Bool
distinct [] = true
distinct (key ∷ keys) = not (contains keys key) && distinct keys

module _ {A : Type 0} (id : A → Text) where
  -- `rows.get(key)`
  unfoldable pub get : Text → List A → Option A
  get key [] = none
  get key (row ∷ rows) = if key == id row then some row else get key rows

  -- `key in rows`
  unfoldable pub has : Text → List A → Bool
  has key [] = false
  has key (row ∷ rows) = let rest = has key rows in if key == id row then true else rest

  -- `[row["id"] for row in rows]`
  abbrev pub ids : List A → List Text
  ids [] = []
  ids (row ∷ rows) = id row ∷ ids rows

module _ {A : Type 0} (id : A → Text) (seq : A → ℕ) (watermark : ℕ) where
  -- The loop of `_index`; `seen` is its set of ids.
  unfoldable pub index_from : List Text → List A → Result (List A)
  index_from seen [] = ok []
  index_from seen (row ∷ rows) =
      let rest = index_from (id row ∷ seen) rows in
      if contains seen (id row)
      then raise duplicate_identity
      else rest >>= λ kept. ok (if leb (seq row) watermark then row ∷ kept else kept)

  unfoldable pub index : List A → Result (List A)
  index = index_from []
