-- ===== src/Digest/Sets.antt =====
-- scripts/reference_digest_encoder.py: the bytes of a set or a map stand for its members, whatever
-- their order.
use codex_context_guard.Base.{
  ◌≡◌, refl, ap, sym, ◌∙◌, ◌↔◌, not, some, List, [], ◌∷◌, map, Text, nat_eq, text_eq, ok,
  ok_injective, arith, after_ok,
}
use mathlib.Core.List.{Permᴰ}
use codex_context_guard.Base.Sorting.{sort}
use codex_context_guard.Base.Sorting.Keep.{text_leb-IsOrder}
use codex_context_guard.Base.Sorting.Order.{sort-Permᴰ, sort_unique}
use codex_context_guard.Base.Texts.{encode, text_leb}
use codex_context_guard.Base.Texts.Distinct.{
  distinct, length-unique-distinct, distinct-Permᴰ, text_leb_antisym,
}
use codex_context_guard.Digest.{Bytes, field}
use codex_context_guard.Digest.Collections.{each, repeats, encode_set}
use codex_context_guard.Digest.Frames.{
  Frame, frames_bytes, Fits, frames_bytes_injective, field-eq-ok, some_injective,
}

pub repeats_lem : (items : List Text) → repeats items ≡ not (distinct items)
unfolding repeats
repeats_lem items = ap not (length-unique-distinct items)

-- Fields that are written for some rows, as frames.
pub each-frames :
    {A : Type 0} (name : A → Text) (token : A → Bytes) (rows : List A) {bytes : Bytes}
    → each (λ row. field (name row) (some (token row))) rows ≡ ok bytes
    → (bytes ≡ frames_bytes (map (λ row. (encode (name row), some (token row))) rows))
      × Fits (map (λ row. (encode (name row), some (token row))) rows)
unfolding each frames_bytes
each-frames name token [] h = (sym (ok_injective h), tt)
each-frames name token (row ∷ rows) h =
    after_ok (field (name row) (some (token row))) _ h (λ first first_e h₁.
      after_ok (each (λ r. field (name r) (some (token r))) rows) _ h₁ (λ rest rest_e done.
        let (e, fit) = field-eq-ok (name row) (some (token row)) first_e in
        let (d, fits_rest) = each-frames name token rows rest_e in
        (sym (ok_injective done) ∙ cc (e, d), (fit, fits_rest))))

encode_set-Permᴰ :
    (name : Text) {xs ys : List Bytes} → Permᴰ xs ys → encode_set name xs ≡ encode_set name ys
unfolding encode_set
encode_set-Permᴰ name {xs} {ys} p = cc (
  repeats_lem xs,
  repeats_lem ys,
  distinct-Permᴰ p,
  sort-Permᴰ text_leb text_leb-IsOrder p (λ x y _ _. text_leb_antisym x y),
)

map_injective :
    {A : Type 0} (f : A → Frame)
    → ((x y : A) → f x ≡ f y → x ≡ y)
    → (xs ys : List A) → map f xs ≡ map f ys
    → xs ≡ ys
map_injective f one [] [] e = refl
map_injective f one [] (y ∷ ys) e = cc
map_injective f one (x ∷ xs) [] e = cc
map_injective f one (x ∷ xs) (y ∷ ys) e = cc (one x y (cc e), map_injective f one xs ys (cc e))

-- Rows whose fields are written alike are alike.
pub each_injective :
    {A : Type 0} (name : A → Text) (token : A → Bytes)
    → ((x y : A) → encode (name x) ≡ encode (name y) → token x ≡ token y → x ≡ y)
    → (xs ys : List A) {bytes : Bytes}
    → each (λ row. field (name row) (some (token row))) xs ≡ ok bytes
    → each (λ row. field (name row) (some (token row))) ys ≡ ok bytes
    → xs ≡ ys
each_injective {A} name token one xs ys h k =
    let frame : A → Frame = λ row. (encode (name row), some (token row)) in
    let (e, fit) = each-frames name token xs h in
    let (d, fits_too) = each-frames name token ys k in
    map_injective frame
      (λ x y both. one x y (ap (λ f. f.0) both) (some_injective (ap (λ f. f.1) both))) xs ys
      (frames_bytes_injective (map frame xs) (map frame ys) fit fits_too (sym e ∙ d))

written :
    (name : Text) (items : List Bytes) {result : Bytes}
    → encode_set name items ≡ ok result
    → each (λ item. field name (some item)) (sort text_leb items) ≡ ok result
unfolding encode_set
written name items k = ground arith

-- Once a set has been written, the same bytes are written for the lists with the same members, in any
-- order, and for no other list.
pub encode_set_iff :
    (name : Text) (xs ys : List Bytes) (bytes : Bytes)
    → encode_set name xs ≡ ok bytes
    → (encode_set name ys ≡ ok bytes) ↔ Permᴰ xs ys
encode_set_iff name xs ys bytes h = (
  λ k. sort_unique text_leb text_leb-IsOrder xs ys (
      each_injective (λ _. name) (λ item. item) (λ x y _ e. e) (sort text_leb xs) (sort text_leb ys)
        (written name xs h) (written name ys k)),
  λ p. sym (encode_set-Permᴰ name p) ∙ h,
)
