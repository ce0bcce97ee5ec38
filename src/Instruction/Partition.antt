-- ===== src/Instruction/Partition.antt =====
-- The segmentation is lossless: its fragments are the text, cut at successive places.
use codex_context_guard.Base.{
  ℕ, zero, suc, ◌+◌, ◌-◌, ◌≤◌, ◌≡◌, ◌⊎◌, inl, inr, refl, sym, ap, ◌∙◌, Bool, true, List, [], ◌∷◌,
  ◌++◌, Text, nat_eq, ltb, leb, length, length-append, take, drop, any, map, arith, All, All-map,
  Bool-cases, if◌then◌else◌,
}
use codex_context_guard.Base.Sorting.{sort}
use codex_context_guard.Base.Sorting.Keep.{IsOrder, Sorted, sort-Sorted, sort-All_to}
use codex_context_guard.Instruction.{
  Bounds, Fragment, FragmentKind, Patterns, bounds_before, cut, add_paths, merge_from, merge,
  fragments_from, quoted, fragments, ambiguous_paths, inside, blank, view, concat, instruction_text,
}

-- Spans that follow on one another, from a place on and up to the end.
abbrev Follows : ℕ → ℕ → List Bounds → Type 0
Follows last cursor [] = cursor ≤ last
Follows last cursor ((b, e) ∷ rest) = (cursor ≤ b) × (b ≤ e) × Follows last e rest

-- A span of a text of this length.
abbrev pub Within : ℕ → Bounds → Type 0
Within last (b, e) = (b ≤ e) × (e ≤ last)

bounds_total : (x y : Bounds) → (bounds_before x y ≡ true) ⊎ (bounds_before y x ≡ true)
bounds_total (a, b) (c, d) = ground arith

bounds_trans :
    (x y z : Bounds)
    → bounds_before x y ≡ true
    → bounds_before y z ≡ true
    → bounds_before x z ≡ true
bounds_trans (a, b) (c, d) (e, f) h k = ground arith

bounds_before-IsOrder : IsOrder bounds_before
bounds_before-IsOrder = record { total = bounds_total; trans = bounds_trans }

merge_from-Follows :
    (last cursor b e : ℕ) (rest : List Bounds)
    → cursor ≤ b
    → Within last (b, e)
    → All (λ (c, d). b ≤ c) rest
    → Sorted bounds_before bounds_before-IsOrder rest
    → All (Within last) rest
    → Follows last cursor (merge_from b e rest)
unfolding merge_from
merge_from-Follows last cursor b e [] h (w, v) behind sorted within = (h, w, v)
merge_from-Follows last cursor b e ((c, d) ∷ rest) h (w, v) (one, behind) (least, sorted)
      ((w', v'), within) =
    elim (Bool-cases (ltb c e)) [
      | inl meets ↦ rw meets (
          merge_from-Follows last cursor b (if leb d e then e else d) rest h (ground arith) behind
            sorted within)
      | inr apart ↦ rw apart (
        h,
        w,
        merge_from-Follows last e c d rest (ground arith) (w', v')
            (All-map (λ y. bounds_before (c, d) y ≡ true) (λ y. c ≤ y.0) rest (λ y p. ground arith)
              least)
            sorted within,
      )
    ]

take-drop : (n : ℕ) (text : Text) → text ≡ take n text ++ drop n text
take-drop zero text = refl
take-drop (suc n) [] = refl
take-drop (suc n) (c ∷ text) = ap (λ t. c ∷ t) (take-drop n text)

drop_nil : (n : ℕ) → drop {A = ℕ} n [] ≡ []
drop_nil zero = refl
drop_nil (suc n) = refl

drop-drop : (text : Text) (a k b : ℕ) → b ≡ a + k → drop k (drop a text) ≡ drop b text
drop-drop text zero k b e = ap (λ n. drop n text) (omega arith)
drop-drop [] (suc a) k b e = drop_nil k ∙ sym (drop_nil b)
drop-drop (c ∷ text) (suc a) k zero e = absurd (omega arith)
drop-drop (c ∷ text) (suc a) k (suc b) e = drop-drop text a k b (omega arith)

drop-cut : (text : Text) (a b : ℕ) → a ≤ b → drop a text ≡ cut text a b ++ drop b text
drop-cut text a b h =
    take-drop (b - a) (drop a text)
    ∙ ap (λ t. cut text a b ++ t) (drop-drop text a (b - a) b (omega arith))

drop_end : (text : Text) (n : ℕ) → length text ≤ n → drop n text ≡ []
drop_end [] n h = drop_nil n
drop_end (c ∷ text) zero h = absurd (omega arith)
drop_end (c ∷ text) (suc n) h = drop_end text n (omega arith)

append_nil : (t : Text) → t ++ [] ≡ t
append_nil [] = refl
append_nil (c ∷ t) = ap (λ u. c ∷ u) (append_nil t)

abbrev pub texts : List Fragment → Text
texts parts = concat (map (λ (f : Fragment). f.text) parts)

fragments_from-texts :
    (text : Text) (ambiguous : List Bounds) (cursor : ℕ) (spans : List Bounds)
    → Follows (length text) cursor spans
    → texts (fragments_from text ambiguous cursor spans) ≡ drop cursor text
unfolding fragments_from
fragments_from-texts text ambiguous cursor [] h = elim (Bool-cases (ltb cursor (length text))) [
  | inl more ↦ rw more (
      ap (λ t. cut text cursor (length text) ++ t) (sym (drop_end text (length text) (omega arith)))
      ∙ sym (drop-cut text cursor (length text) h))
  | inr done ↦ rw done (sym (drop_end text cursor (ground arith)))
]
fragments_from-texts text ambiguous cursor ((b, e) ∷ rest) (h, w, later) =
    let go = fragments_from-texts text ambiguous e rest later in
    let tail : cut text b e ++ texts (fragments_from text ambiguous e rest) ≡ drop b text =
      ap (λ t. cut text b e ++ t) go ∙ sym (drop-cut text b e w) in
    elim (Bool-cases (ltb cursor b)) [
      | inl gap ↦ rw gap (ap (λ t. cut text cursor b ++ t) tail ∙ sym (drop-cut text cursor b h))
      | inr none_left ↦ rw none_left (tail ∙ ap (λ n. drop n text) (ground arith))
    ]

merge-Follows :
    (last : ℕ) (spans : List Bounds)
    → Sorted bounds_before bounds_before-IsOrder spans
    → All (Within last) spans
    → Follows last 0 (merge spans)
unfolding merge
merge-Follows last [] sorted within = omega arith
merge-Follows last ((b, e) ∷ rest) (least, sorted) (one, within) =
    merge_from-Follows last 0 b e rest (omega arith) one
      (All-map (λ y. bounds_before (b, e) y ≡ true) (λ y. b ≤ y.0) rest (λ y p. ground arith) least)
      sorted within

All-append : (P : Bounds → Type 0) (xs ys : List Bounds) → All P xs → All P ys → All P (xs ++ ys)
All-append P [] ys h k = k
All-append P (x ∷ xs) ys (h, hs) k = (h, All-append P xs ys hs k)

add_paths-Within :
    (last : ℕ) (objects paths : List Bounds)
    → All (Within last) objects
    → All (Within last) paths
    → All (Within last) (add_paths objects paths)
unfolding add_paths
add_paths-Within last objects [] h k = h
add_paths-Within last objects (path ∷ rest) h (one, k) =
    elim (Bool-cases (any (inside path.0) objects)) [
      | inl within ↦ rw within (add_paths-Within last objects rest h k)
      | inr apart ↦ rw apart (
          add_paths-Within last (objects ++ path ∷ []) rest
            (All-append (Within last) objects (path ∷ []) h (one, tt)) k)
    ]

-- What the matches of a regular expression in a text are: spans of the text.
pub record AreSpans (patterns : Patterns) (text : Text) : Type 0 where
  pub quotes : All (Within (length text)) (patterns.quotes text)
  pub blocks : All (Within (length text)) (patterns.blocks text)
  pub paths : All (Within (length text)) (patterns.paths text)

-- Where the matches are spans of the text, the fragments are the whole text: every character stands
-- in them exactly once, and in its place.
pub texts-fragments :
    (patterns : Patterns) (text : Text)
    → AreSpans patterns text
    → texts (fragments patterns text) ≡ text
unfolding fragments quoted
texts-fragments patterns text s =
    let objects = sort bounds_before (patterns.quotes text ++ patterns.blocks text) in
    let within =
      sort-All_to bounds_before bounds_before-IsOrder (Within (length text))
        (patterns.quotes text ++ patterns.blocks text)
        (All-append (Within (length text)) (patterns.quotes text) (patterns.blocks text) s.quotes
          s.blocks) in
    let all_objects = add_paths objects (patterns.paths text) in
    fragments_from-texts text
      (ambiguous_paths patterns.runs_into_prose text objects (patterns.paths text)) 0
      (merge (sort bounds_before all_objects))
      (merge-Follows (length text) (sort bounds_before all_objects)
        (sort-Sorted bounds_before bounds_before-IsOrder all_objects)
        (sort-All_to bounds_before bounds_before-IsOrder (Within (length text)) all_objects
          (add_paths-Within (length text) objects (patterns.paths text) within s.paths)))

length-map : (f : ℕ → ℕ) (t : Text) → length (map f t) ≡ length t
length-map f [] = refl
length-map f (c ∷ t) = ap suc (length-map f t)

length-view :
    (preserve : Bool) (part : Fragment) (kind : FragmentKind)
    → part.kind ≡ kind
    → length (view preserve part) ≡ length part.text
length-view preserve part FragmentKind.instruction e = rw e refl
length-view preserve part FragmentKind.object e = rw e (length-map (blank preserve) part.text)
length-view preserve part FragmentKind.ambiguous_object e =
    rw e (length-map (blank preserve) part.text)

length-concat :
    (preserve : Bool) (parts : List Fragment)
    → length (concat (map (view preserve) parts)) ≡ length (texts parts)
length-concat preserve [] = refl
length-concat preserve (part ∷ rest) =
    length-append (view preserve part) (concat (map (view preserve) rest))
    ∙ ap (λ n. n + length (concat (map (view preserve) rest)))
        (length-view preserve part part.kind refl)
    ∙ ap (λ n. length part.text + n) (length-concat preserve rest)
    ∙ sym (length-append part.text (texts rest))

-- Where the matches are spans of the text, the view of its instructions has its length: what is
-- blanked keeps its place.
pub length-instruction_text :
    (patterns : Patterns) (text : Text) (preserve : Bool)
    → AreSpans patterns text
    → length (instruction_text patterns text preserve) ≡ length text
unfolding instruction_text
length-instruction_text patterns text preserve s =
    length-concat preserve (fragments patterns text) ∙ ap length (texts-fragments patterns text s)
