-- ===== src/Stop/Units.antt =====
-- scripts/cg_stop3.py: migrate_work_units_to_schema10, over the records that the ledger holds.
use codex_context_guard.Base.{
  ◌&&◌, ◌||◌, Bool, true, false, not, Option, none, some, List, [], ◌∷◌, map, Text, text_eq, nat_eq,
  option_eq, ◌==◌, contains, leb, length, keep, is_empty, if◌then◌else◌,
}
use codex_context_guard.Base.Decimal.{ℤ, pos, negsuc}
use codex_context_guard.Base.Json.{
  Json, null, boolean, integer, string, object, Members, end, get, truthy, is_text, text_of, put,
  set_default, remove,
}
use codex_context_guard.Base.Texts.{codes}

-- `str(value or fallback)`
unfoldable pub text_or : (Json → Text) → Json → Text → Text
text_or shown value fallback = if truthy value then text_of shown value else fallback

-- `int(seq) if isinstance(seq, int) else None`
unfoldable pub seq_of : Json → Json
seq_of (integer n) = integer n
seq_of (boolean true) = integer (pos 1)
seq_of (boolean false) = integer (pos 0)
seq_of _ = null

unfoldable pub status_of : Text → Text
status_of status = if status == codes "passed" then codes "completed" else status

-- A record of schema 10, from one of schema 9 and the id that it has.
unfoldable pub normal_record : (Json → Text) → Text → Text → Text → Members → Members
normal_record shown now scope id raw =
    let named =
      put (codes "protocol_version") (string (codes "2.0.0")) (put (codes "id") (string id) raw) in
    let child = put (codes "parent_id") (get named (codes "parent_id")) named in
    let kinded =
      put (codes "kind") (string (text_or shown (get child (codes "kind")) (codes "general")))
        child in
    let stated =
      put (codes "status")
        (string (status_of (text_or shown (get raw (codes "status")) (codes "active")))) kinded in
    let timed =
      set_default (codes "closed_at") null (set_default (codes "created_at") (string now) stated) in
    set_default (codes "scope_sha256") (string scope)
      (put (codes "last_active_seq") (seq_of (get timed (codes "last_active_seq"))) timed)

unfoldable pub row_of : Json → Members
row_of (object row) = row
row_of _ = end

-- The first loop, which passes over what has no id.
unfoldable pub normalize : (Json → Text) → Text → Text → List Json → List Members
normalize shown now scope [] = []
normalize shown now scope (raw ∷ raws) =
    let later = normalize shown now scope raws in
    let id = text_or shown (get (row_of raw) (codes "id")) [] in
    if is_empty id then later else normal_record shown now scope id (row_of raw) ∷ later

unfoldable pub has_status : Text → Members → Bool
has_status status row = is_text status (get row (codes "status"))

-- A string that a record keeps under a key.
unfoldable pub text_at : Text → Members → Text
text_at name row = elim (get row name) [ string text ↦ text | _ ↦ [] ]

unfoldable pub known_active : Option Text → List Members → Option Text
known_active none rows = none
known_active (some id) rows =
    if contains (map (text_at (codes "id")) rows) id then some id else none

-- An active unit that is not the one that stays active.
unfoldable pub is_left : Option Text → Members → Bool
is_left active row =
    has_status (codes "active") row && not (active == some (text_at (codes "id") row))

unfoldable pub retire : Option Text → Text → Members → Members
retire active now row =
    let closed = get row (codes "closed_at") in
    if is_left active row
    then put (codes "closed_at") (if truthy closed then closed else string now)
        (put (codes "status") (string (codes "historical_unresolved")) row)
    else row

unfoldable pub is_waiting : Members → Bool
is_waiting row =
    has_status (codes "awaiting_user") row || has_status (codes "awaiting_external") row

unfoldable pub int_leb : ℤ → ℤ → Bool
int_leb (pos a) (pos b) = leb a b
int_leb (pos a) (negsuc b) = false
int_leb (negsuc a) (pos b) = true
int_leb (negsuc a) (negsuc b) = leb b a

unfoldable pub int_same : ℤ → ℤ → Bool
int_same a b = int_leb a b && int_leb b a

-- A number before others, where it is one.
unfoldable pub add_seq : Json → List ℤ → List ℤ
add_seq (integer n) ns = n ∷ ns
add_seq _ ns = ns

unfoldable pub seqs : List Members → List ℤ
seqs [] = []
seqs (row ∷ rows) = add_seq (get row (codes "last_active_seq")) (seqs rows)

-- `max(seqs)`
unfoldable pub top_from : ℤ → List ℤ → ℤ
top_from top [] = top
top_from top (n ∷ ns) = top_from (if int_leb n top then top else n) ns

-- The greatest number, where only one candidate has it.
unfoldable pub unique_top : List ℤ → Option ℤ
unique_top [] = none
unique_top (n ∷ ns) =
    let top = top_from n ns in if length (keep (int_same top) (n ∷ ns)) == 1 then some top else none

unfoldable pub unique_max : List Members → Option ℤ
unique_max candidates =
    if length (seqs candidates) == length candidates then unique_top (seqs candidates) else none

-- `value == top`
unfoldable pub is_int : ℤ → Json → Bool
is_int top (integer n) = int_same top n
is_int top _ = false

unfoldable pub is_latest : Option ℤ → Members → Bool
is_latest none row = false
is_latest (some top) row = is_int top (get row (codes "last_active_seq"))

-- The last loop, over the candidates.
unfoldable pub mark : Option ℤ → Members → Members
mark latest row =
    if is_waiting row
    then (if is_latest latest row
        then put (codes "resume_pending_reopen") (boolean true) row
        else remove (codes "resume_pending_reopen") row)
    else row

-- The id of the last candidate that is to be reopened.
unfoldable pub reopened : Option ℤ → List Members → Option Text
reopened latest [] = none
reopened latest (row ∷ rows) = elim (reopened latest rows) [
  | some id ↦ some id
  | none ↦ if is_latest latest row then some (text_at (codes "id") row) else none
]

pub record Migration : Type 0 where
  pub units : List Members
  pub active_id : Option Text
  pub historical_unresolved : List Text
  pub resume_reopen : Option Text
  pub resume_requires_selection : Bool

-- What follows the first loop.
unfoldable pub settle_units : Text → Option Text → List Members → Migration
settle_units now active rows =
    let retired = map (retire active now) rows in
    let candidates = keep is_waiting retired in
    let latest = unique_max candidates in
    let reopen = reopened latest candidates in
    record {
      units = map (mark latest) retired;
      active_id = active;
      historical_unresolved = map (text_at (codes "id")) (keep (is_left active) rows);
      resume_reopen = reopen;
      resume_requires_selection = not (is_empty candidates) && reopen == none;
    }

unfoldable pub migrate_work_units_to_schema10 :
    (Json → Text) → Text → Text → List Json → Option Text → Migration
migrate_work_units_to_schema10 shown now scope raws active =
    let rows = normalize shown now scope raws in settle_units now (known_active active rows) rows
