-- ===== src/Stop/Registered.antt =====
-- scripts/cg_stop3.py: a tool that may bind subjects is one that the registry names.
use codex_context_guard.Base.{
  ℕ, ◌≡◌, ◌⊎◌, inl, inr, refl, ap, sym, subst, ◌∙◌, Bool-cases, Option-cases, ◌&&◌, Bool, true,
  Option, none, some, List, [], ◌∷◌, ◌++◌, map, Text, text_eq, nat_eq, ◌==◌, ==_iff, ==_self,
  length, contains, drop, is_empty, arith,
}
use mathlib.Core.List.{Memᴰ, append-nil}
use codex_context_guard.Base.Texts.{codes, starts_with}
use codex_context_guard.Base.Texts.Distinct.{contains-append}
use codex_context_guard.Stop.Adapters.{
  Adapter, registry, tool_name, tools_of, canonical_tools, first_adapter, short_part, not_empty,
  short_after, groups, parse_tool, bare_name, resolve_tool, resolve_bare, resolve_unlisted,
  resolve_lowered, lists_tool, trusts_short, adapter_identity, identity_binds_readback,
  is_tool_letter, unregistered_name,
}

-- A namespace and a short name that one adapter trusts.
pub IsTrusted : Text → Text → Type 0
IsTrusted namespace short =
    (a : Adapter) × Memᴰ a registry
    × (contains a.trusted_namespaces namespace ≡ true)
    × (contains a.trusted_short_names short ≡ true)

first_adapter-passes :
    (p : Adapter → Bool) (adapters : List Adapter) (a : Adapter)
    → first_adapter p adapters ≡ some a
    → p a ≡ true × Memᴰ a adapters
unfolding first_adapter
first_adapter-passes p [] a found = cc
first_adapter-passes p (b ∷ adapters) a found = elim (Bool-cases (p b)) [
  | inl passes ↦
      let here : b ≡ a = cc (rw passes at found) in
      (
        subst (λ x. p x ≡ true) here passes,
        subst (λ x. Memᴰ x (b ∷ adapters)) here (Memᴰ.head refl),
      )
  | inr fails ↦
      let (passes, there) = first_adapter-passes p adapters a (rw fails at found) in
      (passes, Memᴰ.tail there)
]

contains-map :
    (f : Text → Text) (xs : List Text) (t : Text)
    → contains (map f xs) t ≡ true
    → (x : Text) × (contains xs x ≡ true) × (t ≡ f x)
contains-map f [] t h = cc
contains-map f (x ∷ xs) t h = elim (Bool-cases (t == f x)) [
  | inl here ↦ (x, rw (==_self x) refl, (==_iff t (f x)).0 here)
  | inr other ↦ let (y, there, same) = contains-map f xs t (rw other at h) in (y, grind arith, same)
]

contains-tools_of :
    (namespaces shorts : List Text) (tool : Text)
    → contains (tools_of namespaces shorts) tool ≡ true
    → (namespace : Text) × (short : Text) × (contains namespaces namespace ≡ true)
      × (contains shorts short ≡ true)
      × (tool ≡ tool_name namespace short)
unfolding tools_of
contains-tools_of [] shorts tool h = cc
contains-tools_of (namespace ∷ namespaces) shorts tool h =
    elim (Bool-cases (contains (map (tool_name namespace) shorts) tool)) [
      | inl here ↦
          let (short, known, same) = contains-map (tool_name namespace) shorts tool here in
          (namespace, short, rw (==_self namespace) refl, known, same)
      | inr absent ↦
          let split =
            contains-append (map (tool_name namespace) shorts) (tools_of namespaces shorts) tool in
          let (other, short, trusted, known, same) =
            contains-tools_of namespaces shorts tool (grind arith) in
          (other, short, grind arith, known, same)
    ]

-- The characters that end a name: none, or a newline.
IsEnd : Text → Type 0
IsEnd text = (text ≡ []) ⊎ (text ≡ 10 ∷ [])

newline_end : (c : ℕ) (s : Text) → (c == 10 && is_empty s) ≡ true → c ∷ s ≡ 10 ∷ []
newline_end c [] h = ap (λ x. x ∷ []) ((==_iff c 10).0 (grind arith))
newline_end c (d ∷ s) h = grind arith

starts_with-drop : (s p : Text) → starts_with s p ≡ true → s ≡ p ++ drop (length p) s
unfolding starts_with
starts_with-drop s [] h = refl
starts_with-drop [] (x ∷ p) h = cc
starts_with-drop (c ∷ s) (x ∷ p) h =
    let first = (==_iff c x).0 (grind arith) in
    let rest = starts_with-drop s p (grind arith) in rw first (ap (λ t. x ∷ t) rest)

short_part_whole :
    (s part : Text) → short_part s ≡ some part → (e : Text) × (s ≡ part ++ e) × IsEnd e
unfolding short_part IsEnd
short_part_whole [] part h = ([], cc, inl refl)
short_part_whole (c ∷ s) part h = elim (Option-cases (short_part s)) [
  | inl nothing ↦ cc (rw nothing at h)
  | inr (rest, found) ↦ elim (Bool-cases (is_tool_letter c)) [
    | inl letter ↦
        let (e, whole, ended) = short_part_whole s rest found in
        let same : c ∷ rest ≡ part = cc (rw (found, letter) at h) in
        (e, subst (λ t. c ∷ s ≡ t ++ e) same (ap (λ t. c ∷ t) whole), ended)
    | inr other ↦ elim (Bool-cases (c == 10 && is_empty s)) [
      | inl newline ↦
          let same : [] ≡ part = cc (rw (found, other, newline) at h) in
          (10 ∷ [], rw (sym same) (newline_end c s newline), inr refl)
      | inr bad ↦ cc (rw (found, other, bad) at h)
    ]
  ]
]

not_empty-some : (o : Option Text) (part : Text) → not_empty o ≡ some part → o ≡ some part
unfolding not_empty
not_empty-some none part h = cc
not_empty-some (some []) part h = cc
not_empty-some (some (c ∷ s)) part h = h

short_after_part : (s part : Text) → short_after s ≡ some part → short_part s ≡ some part
unfolding short_after
short_after_part s part h = not_empty-some (short_part s) part h

some_pair :
    (a b c d : Text)
    → ◌≡◌ {A = Option (Text × Text)} (some (a, c)) (some (b, d))
    → (a ≡ b) × (c ≡ d)
some_pair a b c d e = (
  ap (λ o. elim o [ none ↦ a | some pair ↦ pair.0 ]) e,
  ap (λ o. elim o [ none ↦ c | some pair ↦ pair.1 ]) e,
)

groups_whole :
    (s namespace short : Text)
    → groups s ≡ some (namespace, short)
    → (e : Text) × (s ≡ namespace ++ (codes "__" ++ (short ++ e))) × IsEnd e
unfolding groups
groups_whole [] namespace short h = cc
groups_whole (c ∷ s) namespace short h = elim (Option-cases (groups s)) [
  | inr ((before, after), found) ↦ elim (Bool-cases (is_tool_letter c)) [
    | inl letter ↦
        let (e, whole, ended) = groups_whole s before after found in
        let (same, last) = some_pair (c ∷ before) namespace after short (rw (found, letter) at h) in
        (e, rw (sym same, sym last) (ap (λ t. c ∷ t) whole), ended)
    | inr other ↦ cc (rw (found, other) at h)
  ]
  | inl nothing ↦ elim (Bool-cases (is_tool_letter c && starts_with s (codes "__"))) [
    | inr other ↦ cc (rw (nothing, other) at h)
    | inl split ↦ elim (Option-cases (short_after (drop 2 s))) [
      | inl none_after ↦ cc (rw (nothing, split, none_after) at h)
      | inr (after, found) ↦
          let (same, last) =
            some_pair (c ∷ []) namespace after short (rw (nothing, split, found) at h) in
          let (e, whole, ended) =
            short_part_whole (drop 2 s) after (short_after_part (drop 2 s) after found) in
          let marked = starts_with-drop s (codes "__") (grind arith) in
          (
            e,
            rw (sym same, sym last) (ap (λ t. c ∷ t) (marked ∙ ap (λ t. codes "__" ++ t) whole)),
            ended,
          )
    ]
  ]
]

-- A name that the registry names: a qualified one that one adapter trusts, or, where it has not
-- that form, a bare one that is a short name.
pub IsRegistered : Text → Type 0
IsRegistered lowered =
    ((namespace : Text) × (short : Text) × (e : Text) × IsTrusted namespace short
      × (lowered ≡ tool_name namespace (short ++ e))
      × IsEnd e)
    ⊎ ((a : Adapter) × Memᴰ a registry
        × (contains a.trusted_short_names (bare_name lowered) ≡ true)
        × (parse_tool lowered ≡ none))

parse_tool_whole :
    (text namespace short : Text)
    → parse_tool text ≡ some (namespace, short)
    → (e : Text) × (text ≡ tool_name namespace (short ++ e)) × IsEnd e
unfolding parse_tool tool_name
parse_tool_whole text namespace short h = elim (Bool-cases (starts_with text (codes "mcp__"))) [
  | inr other ↦ cc (rw other at h)
  | inl marked ↦
      let (e, whole, ended) = groups_whole (drop 5 text) namespace short (rw marked at h) in
      (e, starts_with-drop text (codes "mcp__") marked ∙ ap (λ t. codes "mcp__" ++ t) whole, ended)
]

resolve_tool-IsTrusted :
    (namespace short : Text)
    → identity_binds_readback
        (resolve_tool namespace short (first_adapter (trusts_short short) registry))
      ≡ true
    → IsTrusted namespace short
unfolding resolve_tool identity_binds_readback unregistered_name trusts_short IsTrusted
resolve_tool-IsTrusted namespace short h =
    elim (Option-cases (first_adapter (trusts_short short) registry)) [
      | inl nothing ↦ cc (rw nothing at h)
      | inr (a, found) ↦
          let (known, there) = first_adapter-passes (trusts_short short) registry a found in
          elim (Bool-cases (contains a.trusted_namespaces namespace)) [
            | inl trusted ↦ (a, there, trusted, known)
            | inr other ↦ cc (rw (found, other) at h)
          ]
    ]

bare-IsRegistered :
    (lowered : Text)
    → parse_tool lowered ≡ none
    → identity_binds_readback (
        resolve_bare
          (bare_name lowered)
          (first_adapter (trusts_short (bare_name lowered)) registry))
      ≡ true
    → IsRegistered lowered
unfolding resolve_bare identity_binds_readback unregistered_name trusts_short IsRegistered
bare-IsRegistered lowered bare h =
    elim (Option-cases (first_adapter (trusts_short (bare_name lowered)) registry)) [
      | inl unknown ↦ cc (rw unknown at h)
      | inr (a, found) ↦
          let (known, there) =
            first_adapter-passes (trusts_short (bare_name lowered)) registry a found in
          inr (a, there, known, bare)
    ]

unlisted-IsRegistered :
    (lowered : Text)
    → identity_binds_readback (resolve_unlisted lowered (parse_tool lowered)) ≡ true
    → IsRegistered lowered
unfolding resolve_unlisted IsRegistered
unlisted-IsRegistered lowered h = elim (Option-cases (parse_tool lowered)) [
  | inl bare ↦ bare-IsRegistered lowered bare (rw bare at h)
  | inr ((namespace, short), parsed) ↦
      let (e, whole, ended) = parse_tool_whole lowered namespace short parsed in
      inl
        (namespace, short, e, resolve_tool-IsTrusted namespace short (rw parsed at h), whole, ended)
]

-- A tool may bind subjects only if the registry names it, by the name in lower case: as a qualified
-- name whose namespace and short name one adapter trusts, a newline at the end apart, or, where
-- the name has not that form, as one whose bare name is a short name of an adapter.
pub adapter_identity-IsRegistered :
    (lower : Text → Text) (tool : Text)
    → identity_binds_readback (adapter_identity lower tool) ≡ true
    → IsRegistered (lower tool)
unfolding adapter_identity resolve_lowered lists_tool canonical_tools IsRegistered IsEnd IsTrusted
adapter_identity-IsRegistered lower tool h =
    let lowered = lower tool in
    elim (Option-cases (first_adapter (lists_tool lowered) registry)) [
      | inl nothing ↦ unlisted-IsRegistered lowered (rw nothing at h)
      | inr (a, found) ↦
          let (listed, there) = first_adapter-passes (lists_tool lowered) registry a found in
          let (namespace, short, trusted, known, same) =
            contains-tools_of a.trusted_namespaces a.trusted_short_names lowered listed in
          inl (
            namespace,
            short,
            [],
            (a, there, trusted, known),
            same ∙ ap (tool_name namespace) (sym (append-nil short)),
            inl refl,
          )
    ]
