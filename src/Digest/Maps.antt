-- ===== src/Digest/Maps.antt =====
-- scripts/reference_digest_encoder.py: the bytes of a map stand for its rows, whatever their order.
use codex_context_guard.Base.{
  suc, ◌++◌, ◌≡◌, refl, ap, sym, subst, ◌∙◌, ◌↔◌, true, some, List, [], ◌∷◌, map, Text, nat_eq,
  text_eq, ==_iff, contains, length, All, ok, raise_if, digest_error, arith, after_ok,
}
use mathlib.Core.List.{Permᴰ, Memᴰ}
use codex_context_guard.Base.Sorting.{sort}
use codex_context_guard.Base.Sorting.Keep.{IsOrder, text_leb-IsOrder}
use codex_context_guard.Base.Sorting.Order.{AllApart, sort-Permᴰ, sort_unique}
use codex_context_guard.Base.Texts.{encode}
use codex_context_guard.Base.Texts.Utf8.{encode_injective}
use codex_context_guard.Base.Texts.Distinct.{distinct, distinct-Permᴰ, text_leb_antisym}
use codex_context_guard.Digest.{Bytes, field, check_field_count}
use codex_context_guard.Digest.Collections.{
  Entry, each, repeats, by_key, check_key, check_keys, encode_map_rows,
}
use codex_context_guard.Digest.Preimages.{append_cancel}
use codex_context_guard.Digest.Sets.{each_injective, repeats_lem}

abbrev keys_of : List Entry → List Text
keys_of = map (λ row. row.0)

pub by_key-IsOrder : IsOrder by_key
unfolding by_key
by_key-IsOrder = record {
  total = λ a b. text_leb-IsOrder.total (encode a.0) (encode b.0);
  trans = λ a b c. text_leb-IsOrder.trans (encode a.0) (encode b.0) (encode c.0);
}

contains-key :
    (rows : List Entry) {row : Entry} → Memᴰ row rows → contains (keys_of rows) row.0 ≡ true
contains-key [] m = elim m [ ]
contains-key (first ∷ rows) {row} (Memᴰ.head e) =
    ground (arith, (==_iff row.0 first.0).1 (ap (λ r. r.0) e))
contains-key (first ∷ rows) {row} (Memᴰ.tail m) = ground (arith, contains-key rows m)

clash :
    (rows : List Entry) (row other : Entry)
    → distinct (keys_of (row ∷ rows)) ≡ true
    → Memᴰ other rows
    → row.0 ≡ other.0
    → ⊥
clash rows row other d m same =
    ground
      (arith, subst (λ key. contains (keys_of rows) key ≡ true) (sym same) (contains-key rows m))

-- Distinct keys have one row each.
one_row :
    (rows : List Entry) (x y : Entry)
    → distinct (keys_of rows) ≡ true
    → Memᴰ x rows
    → Memᴰ y rows
    → x.0 ≡ y.0
    → x ≡ y
one_row [] x y d m n same = elim m [ ]
one_row (row ∷ rows) x y d (Memᴰ.head e) (Memᴰ.head e') same = e ∙ sym e'
one_row (row ∷ rows) x y d (Memᴰ.head e) (Memᴰ.tail m) same =
    absurd (clash rows row y d m (ap (λ r. r.0) (sym e) ∙ same))
one_row (row ∷ rows) x y d (Memᴰ.tail m) (Memᴰ.head e) same =
    absurd (clash rows row x d m (ap (λ r. r.0) (sym e) ∙ sym same))
one_row (row ∷ rows) x y d (Memᴰ.tail m) (Memᴰ.tail m') same =
    one_row rows x y (ground arith) m m' same

distinct-AllApart :
    (rows : List Entry) → distinct (keys_of rows) ≡ true → AllApart by_key by_key-IsOrder rows
unfolding by_key
distinct-AllApart rows d x y m n h k =
    one_row rows x y d m n
      (encode_injective x.0 y.0 (text_leb_antisym (encode x.0) (encode y.0) h k))

AllKeys : List Text → Type 0
AllKeys = All (λ key. check_key key ≡ ok tt)

check_keys-AllKeys : (keys : List Text) → check_keys keys ≡ ok tt → AllKeys keys
unfolding check_keys AllKeys
check_keys-AllKeys [] h = tt
check_keys-AllKeys (key ∷ keys) h =
    after_ok (check_key key) _ h (λ unit e rest. (e, check_keys-AllKeys keys rest))

AllKeys-check_keys : (keys : List Text) → AllKeys keys → check_keys keys ≡ ok tt
unfolding check_keys AllKeys
AllKeys-check_keys [] h = refl
AllKeys-check_keys (key ∷ keys) (h, hs) = rw h (AllKeys-check_keys keys hs)

AllKeys-Permᴰ : {xs ys : List Entry} → Permᴰ xs ys → AllKeys (keys_of xs) → AllKeys (keys_of ys)
unfolding AllKeys
AllKeys-Permᴰ Permᴰ.nil h = h
AllKeys-Permᴰ (Permᴰ.cons e p) (h, hs) =
    (subst (λ (row : Entry). check_key row.0 ≡ ok tt) e h, AllKeys-Permᴰ p hs)
AllKeys-Permᴰ (Permᴰ.swap e d) (h, (k, hs)) = (
  subst (λ (row : Entry). check_key row.0 ≡ ok tt) d k,
  (subst (λ (row : Entry). check_key row.0 ≡ ok tt) e h, hs),
)
AllKeys-Permᴰ (Permᴰ.trans p q) h = AllKeys-Permᴰ q (AllKeys-Permᴰ p h)

length-Permᴰ : {xs ys : List Entry} → Permᴰ xs ys → length xs ≡ length ys
length-Permᴰ Permᴰ.nil = refl
length-Permᴰ (Permᴰ.cons e p) = ap suc (length-Permᴰ p)
length-Permᴰ (Permᴰ.swap e d) = refl
length-Permᴰ (Permᴰ.trans p q) = length-Permᴰ p ∙ length-Permᴰ q

keys-Permᴰ : {xs ys : List Entry} → Permᴰ xs ys → Permᴰ (keys_of xs) (keys_of ys)
keys-Permᴰ Permᴰ.nil = Permᴰ.nil
keys-Permᴰ (Permᴰ.cons e p) = Permᴰ.cons (ap (λ r. r.0) e) (keys-Permᴰ p)
keys-Permᴰ (Permᴰ.swap e d) = Permᴰ.swap (ap (λ r. r.0) e) (ap (λ r. r.0) d)
keys-Permᴰ (Permᴰ.trans p q) = Permᴰ.trans (keys-Permᴰ p) (keys-Permᴰ q)

-- What a map that has been written has passed.
Written : List Entry → Text → Bytes → Type 0
Written rows prefix bytes =
    (distinct (keys_of rows) ≡ true)
    × (check_keys (keys_of rows) ≡ ok tt)
    × (each (λ row. field (prefix ++ row.0) (some row.1)) (sort by_key rows) ≡ ok bytes)
    × (check_field_count (length rows) ≡ ok tt)

encode_map_rows-Written :
    (rows : List Entry) (prefix : Text) {bytes : Bytes}
    → encode_map_rows rows prefix ≡ ok bytes
    → Written rows prefix bytes
unfolding encode_map_rows Written
encode_map_rows-Written rows prefix h =
    after_ok (raise_if (repeats (keys_of rows)) digest_error) _ h (λ u u_e h₁.
      after_ok (check_keys (keys_of rows)) _ h₁ (λ v v_e h₂.
        after_ok (each (λ row. field (prefix ++ row.0) (some row.1)) (sort by_key rows)) _ h₂
          (λ encoded encoded_e h₃. after_ok (check_field_count (length rows)) _ h₃ (λ w w_e done.
            (ground (arith, repeats_lem (keys_of rows)), v_e, encoded_e ∙ done, w_e)))))

Written-encode_map_rows :
    (rows : List Entry) (prefix : Text) {bytes : Bytes}
    → Written rows prefix bytes
    → encode_map_rows rows prefix ≡ ok bytes
unfolding encode_map_rows Written
Written-encode_map_rows rows prefix (d, c, e, w) = rw (repeats_lem (keys_of rows), d, c, e, w) refl

Written-Permᴰ :
    {xs ys : List Entry} (prefix : Text) (bytes : Bytes)
    → Permᴰ xs ys
    → Written xs prefix bytes
    → Written ys prefix bytes
unfolding Written
Written-Permᴰ {xs} {ys} prefix bytes p (d, c, e, w) = (
  sym (distinct-Permᴰ (keys-Permᴰ p)) ∙ d,
  AllKeys-check_keys (keys_of ys) (AllKeys-Permᴰ p (check_keys-AllKeys (keys_of xs) c)),
  subst (λ rows. each (λ row. field (prefix ++ row.0) (some row.1)) rows ≡ ok bytes)
      (sort-Permᴰ by_key by_key-IsOrder p (distinct-AllApart xs d)) e,
  subst (λ n. check_field_count n ≡ ok tt) (length-Permᴰ p) w,
)

-- Once a map has been written, the same bytes are written for its rows in any order, and for no other
-- rows: neither another key nor another token.
pub encode_map_rows_iff :
    (xs ys : List Entry) (prefix : Text) (bytes : Bytes)
    → encode_map_rows xs prefix ≡ ok bytes
    → (encode_map_rows ys prefix ≡ ok bytes) ↔ Permᴰ xs ys
unfolding Written
encode_map_rows_iff xs ys prefix bytes h = (
  λ k.
      let (_, _, e, _) = encode_map_rows-Written xs prefix h in
      let (_, _, d, _) = encode_map_rows-Written ys prefix k in
      sort_unique by_key by_key-IsOrder xs ys (
        each_injective (λ row. prefix ++ row.0) (λ row. row.1) one (sort by_key xs) (sort by_key ys)
          e d),
  λ p.
      Written-encode_map_rows ys prefix
        (Written-Permᴰ prefix bytes p (encode_map_rows-Written xs prefix h)),
)
  where
    one : (x y : Entry) → encode (prefix ++ x.0) ≡ encode (prefix ++ y.0) → x.1 ≡ y.1 → x ≡ y
    one x y e d = cc (append_cancel prefix x.0 y.0 (encode_injective _ _ e), d)
