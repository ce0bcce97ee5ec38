-- ===== src/Stop/Adapters.antt =====
-- scripts/cg_stop3.py: the registry of adapters and the identity of a tool, adapter_identity.
use codex_context_guard.Base.{
  ℕ, ◌&&◌, ◌||◌, Bool, true, false, Option, none, some, List, [], ◌∷◌, ◌++◌, map, Text, text_eq,
  nat_eq, ◌==◌, contains, leb, drop, is_empty, if◌then◌else◌,
}
use codex_context_guard.Base.Texts.{codes, starts_with, strip}

pub record Adapter : Type 0 where
  pub name : Text
  pub trusted_namespaces : List Text
  pub trusted_short_names : List Text

-- `ADAPTER_REGISTRY`, without the fields of the inputs.
abbrev pub registry : List Adapter
registry =
    record {
      name = codes "thread_read";
      trusted_namespaces = codes "codex_app" ∷ [];
      trusted_short_names = codes "read_thread" ∷ [];
    }
    ∷ record {
      name = codes "file_read";
      trusted_namespaces = codes "codex_app" ∷ codes "fs" ∷ codes "filesystem" ∷ [];
      trusted_short_names =
          codes "read"
          ∷ codes "read_file"
          ∷ codes "readfile"
          ∷ codes "read_text_file"
          ∷ codes "view"
          ∷ codes "view_file"
          ∷ codes "open_file"
          ∷ codes "cat_file"
          ∷ codes "show_file"
          ∷ [];
    }
    ∷ []

-- `f"mcp__{namespace}__{short}"`
unfoldable pub tool_name : Text → Text → Text
tool_name namespace short = codes "mcp__" ++ (namespace ++ (codes "__" ++ short))

unfoldable pub tools_of : List Text → List Text → List Text
tools_of [] shorts = []
tools_of (namespace ∷ namespaces) shorts =
    map (tool_name namespace) shorts ++ tools_of namespaces shorts

unfoldable pub canonical_tools : Adapter → List Text
canonical_tools adapter = tools_of adapter.trusted_namespaces adapter.trusted_short_names

pub data Identity : Type 0 where
  canonical trusted_short adapter_identity_ambiguous unregistered : Identity

pub record Resolution : Type 0 where
  pub adapter : Option Text
  pub identity : Identity
  pub namespace : Option Text
  pub short_name : Text

-- The first adapter that passes a test.
unfoldable pub first_adapter : (Adapter → Bool) → List Adapter → Option Adapter
first_adapter p [] = none
first_adapter p (adapter ∷ adapters) =
    let later = first_adapter p adapters in if p adapter then some adapter else later

-- `text.rsplit("__", 1)[-1]`, where there is such a separator.
unfoldable pub after_last : Text → Option Text
after_last [] = none
after_last (c ∷ s) = elim (after_last s) [
  | some part ↦ some part
  | none ↦ if starts_with (c ∷ s) (codes "__") then some (drop 1 s) else none
]

unfoldable pub last_part : Text → Text
last_part text = elim (after_last text) [ none ↦ text | some part ↦ part ]

-- `[a-z0-9_-]` under re.IGNORECASE, with the four letters beyond ASCII that it then matches.
unfoldable pub is_tool_letter : ℕ → Bool
is_tool_letter c =
    leb 97 c && leb c 122
    || leb 65 c && leb c 90
    || leb 48 c && leb c 57
    || c == 95
    || c == 45
    || contains (304 ∷ 305 ∷ 383 ∷ 8490 ∷ []) c

-- `$`: the end, or a newline that is the last character.
unfoldable pub short_part : Text → Option Text
short_part [] = some []
short_part (c ∷ s) = elim (short_part s) [
  | some part ↦
      if is_tool_letter c then some (c ∷ part) else if c == 10 && is_empty s then some [] else none
  | none ↦ none
]

unfoldable pub not_empty : Option Text → Option Text
not_empty (some []) = none
not_empty (some (c ∷ s)) = some (c ∷ s)
not_empty none = none

-- The second group.
unfoldable pub short_after : Text → Option Text
short_after s = not_empty (short_part s)

-- The two groups: the first takes as much as it can.
unfoldable pub groups : Text → Option (Text × Text)
groups [] = none
groups (c ∷ s) = elim (groups s) [
  | some (namespace, short) ↦ if is_tool_letter c then some (c ∷ namespace, short) else none
  | none ↦
      if is_tool_letter c && starts_with s (codes "__")
      then elim (short_after (drop 2 s)) [ some short ↦ some (c ∷ [], short) | none ↦ none ]
      else none
]

-- `_MCP_TOOL_NAME_RE.match(lowered)`; a lowered text has no other spelling of `mcp`.
unfoldable pub parse_tool : Text → Option (Text × Text)
parse_tool text = if starts_with text (codes "mcp__") then groups (drop 5 text) else none

-- `[a-z0-9]`
unfoldable pub is_plain : ℕ → Bool
is_plain c = leb 97 c && leb c 122 || leb 48 c && leb c 57

-- `re.sub(r"[^a-z0-9]+", "_", text)`; `inside` says that a run of other characters goes on.
unfoldable pub squash : Bool → Text → Text
squash inside [] = []
squash inside (c ∷ s) =
    let plain = squash false s in
    let other = squash true s in
    if is_plain c then c ∷ plain else if inside then other else 95 ∷ other

unfoldable pub bare_name : Text → Text
bare_name text = strip (λ c. c == 95) (squash false text)

unfoldable pub unregistered_name : Option Text → Text → Resolution
unregistered_name namespace short = record {
  adapter = none;
  identity = unregistered;
  namespace = namespace;
  short_name = short;
}

unfoldable pub trusts_short : Text → Adapter → Bool
trusts_short short adapter = contains adapter.trusted_short_names short

-- What follows the match of a name of the MCP form, by the adapter that has the short name.
unfoldable pub resolve_tool : Text → Text → Option Adapter → Resolution
resolve_tool namespace short none = unregistered_name (some namespace) short
resolve_tool namespace short (some a) = record {
  adapter = some a.name;
  identity =
      if contains a.trusted_namespaces namespace then canonical else adapter_identity_ambiguous;
  namespace = some namespace;
  short_name = short;
}

unfoldable pub resolve_bare : Text → Option Adapter → Resolution
resolve_bare bare none = unregistered_name none bare
resolve_bare bare (some a) = record {
  adapter = some a.name;
  identity = trusted_short;
  namespace = none;
  short_name = bare;
}

-- A name that is no canonical tool, by its groups.
unfoldable pub resolve_unlisted : Text → Option (Text × Text) → Resolution
resolve_unlisted lowered (some (namespace, short)) =
    resolve_tool namespace short (first_adapter (trusts_short short) registry)
resolve_unlisted lowered none =
    let bare = bare_name lowered in resolve_bare bare (first_adapter (trusts_short bare) registry)

unfoldable pub lists_tool : Text → Adapter → Bool
lists_tool lowered adapter = contains (canonical_tools adapter) lowered

-- The identity of a name in lower case, by the adapter that lists it.
unfoldable pub resolve_lowered : Text → Option Adapter → Resolution
resolve_lowered lowered (some a) = record {
  adapter = some a.name;
  identity = canonical;
  namespace = none;
  short_name = last_part lowered;
}
resolve_lowered lowered none = resolve_unlisted lowered (parse_tool lowered)

-- `lower` is Python's `str.lower`.
unfoldable pub adapter_identity : (Text → Text) → Text → Resolution
adapter_identity lower tool =
    let lowered = lower tool in
    resolve_lowered lowered (first_adapter (lists_tool lowered) registry)

unfoldable pub identity_binds_readback : Resolution → Bool
identity_binds_readback resolution = elim resolution.identity [
  | canonical ↦ true
  | trusted_short ↦ true
  | _ ↦ false
]
