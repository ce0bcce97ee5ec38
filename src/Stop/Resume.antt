-- ===== src/Stop/Resume.antt =====
-- scripts/cg_stop3.py: what a migration of work units leaves active, and what it reopens.
use codex_context_guard.Base.{
  ◌≡◌, refl, sym, ◌∙◌, ◌&&◌, true, false, Option, some, List, [], ◌∷◌, map, Text, text_eq, nat_eq,
  option_eq, ==_iff, keep, All, if◌then◌else◌, Bool-cases, inl, inr, arith,
}
use codex_context_guard.Base.Decimal.{ℤ}
use codex_context_guard.Base.Json.{Json, integer, string, Members, get, truthy, is_text, put}
use codex_context_guard.Base.Json.Laws.{get-put, get-put_other}
use codex_context_guard.Base.Texts.{codes}
use codex_context_guard.Stop.Units.{
  Migration, has_status, text_at, is_left, retire, is_waiting, seqs, unique_max, is_latest, mark,
  settle_units, migrate_work_units_to_schema10, normalize, known_active,
}
use codex_context_guard.Stop.Latest.{
  AtMost, length-unique_max, is_latest-most, ids, at_most_one, reopened-ids,
}
use codex_context_guard.Stop.Marks.{
  is_reopened, Alike-status, Alike-id, Alike-seq, mark-Alike, is_reopened-mark, seqs-marked,
  ids-reopened,
}

-- A unit that is active is the one that stays active.
IsTheOne : Option Text → Members → Type 0
IsTheOne active row =
    has_status (codes "active") row ≡ true → active ≡ some (text_at (codes "id") row)

kept-IsTheOne :
    (active : Option Text) (row : Members) → is_left active row ≡ false → IsTheOne active row
unfolding IsTheOne is_left
kept-IsTheOne active row kept is_active =
    (==_iff active (some (text_at (codes "id") row))).0 (grind arith)

-- A unit that is retired is no longer active.
retired_status :
    (closed : Json) (row : Members)
    → has_status (codes "active") (
        put
          (codes "closed_at")
          closed
          (put (codes "status") (string (codes "historical_unresolved")) row))
      ≡ false
unfolding has_status text_eq is_text
retired_status closed row =
    let historical = put (codes "status") (string (codes "historical_unresolved")) row in
    rw
      (
        get-put_other (codes "closed_at") (codes "status") closed historical refl,
        get-put (codes "status") (string (codes "historical_unresolved")) row,
      )
      refl

retired-IsTheOne :
    (active : Option Text) (now : Text) (row : Members) → IsTheOne active (retire active now row)
unfolding IsTheOne retire
retired-IsTheOne active now row = elim (Bool-cases (is_left active row)) [
  | inl left ↦ rw left (λ h.
      let gone =
        retired_status
          (if truthy (get row (codes "closed_at")) then get row (codes "closed_at") else string now)
          row in
      cc)
  | inr kept ↦ rw kept (kept-IsTheOne active row kept)
]

marked-IsTheOne :
    (latest : Option ℤ) (active : Option Text) (row : Members)
    → IsTheOne active row
    → IsTheOne active (mark latest row)
unfolding IsTheOne
marked-IsTheOne latest active row one =
    rw
      (
        Alike-status (codes "active") (mark latest row) row (mark-Alike latest row),
        Alike-id (mark latest row) row (mark-Alike latest row),
      )
      one

-- The number of a reopened unit is the greatest of the waiting units.
IsLast : List Members → Members → Type 0
IsLast rows row =
    is_reopened row ≡ true
    → (n : ℤ) × (get row (codes "last_active_seq") ≡ integer n)
      × All (AtMost n) (seqs (keep is_waiting rows))

-- The active units are the one that stays active; the waiting units that are reopened are the one
-- that is reported, if any, and its number is the greatest of all the waiting units'.
pub IsSettled : Migration → Type 0
IsSettled migration =
    All (IsTheOne migration.active_id) migration.units
    × (ids (keep is_reopened migration.units) ≡ at_most_one migration.resume_reopen)
    × All (IsLast migration.units) migration.units

All-map_of {ℓ κ} :
    {A : Type ℓ} {B : Type ℓ} (Q : B → Type κ) (f : A → B) (xs : List A)
    → ((x : A) → Q (f x))
    → All Q (map f xs)
All-map_of Q f [] h = tt
All-map_of Q f (x ∷ xs) h = (h x, All-map_of Q f xs h)

marked-IsLast :
    (rows : List Members) (row : Members)
    → let latest = unique_max (keep is_waiting rows) in
      IsLast (map (mark latest) rows) (mark latest row)
unfolding IsLast
marked-IsLast rows row reopen =
    let latest = unique_max (keep is_waiting rows) in
    let both : (is_waiting row && is_latest latest row) ≡ true =
      sym (is_reopened-mark latest row) ∙ reopen in
    let last : is_latest latest row ≡ true = grind arith in
    let (n, is_n, most) = is_latest-most (keep is_waiting rows) row last in
    (
      n,
      Alike-seq (mark latest row) row (mark-Alike latest row) ∙ is_n,
      rw (seqs-marked latest rows) most,
    )

units-IsTheOne :
    (now : Text) (active : Option Text) (latest : Option ℤ) (rows : List Members)
    → All (IsTheOne active) (map (mark latest) (map (retire active now) rows))
units-IsTheOne now active latest [] = tt
units-IsTheOne now active latest (row ∷ rows) = (
  marked-IsTheOne latest active (retire active now row) (retired-IsTheOne active now row),
  units-IsTheOne now active latest rows,
)

settle_units-IsSettled :
    (now : Text) (active : Option Text) (rows : List Members)
    → IsSettled (settle_units now active rows)
unfolding IsSettled settle_units
settle_units-IsSettled now active rows =
    let retired = map (retire active now) rows in
    let latest = unique_max (keep is_waiting retired) in
    (
      units-IsTheOne now active latest rows,
      ids-reopened latest retired
          ∙ reopened-ids latest (keep is_waiting retired)
              (length-unique_max (keep is_waiting retired)),
      All-map_of (IsLast (map (mark latest) retired)) (mark latest) retired (marked-IsLast retired),
    )

-- Whatever records a migration gets, it settles them: every unit that is still active has the id of
-- the unit that stays active, the waiting units that are marked to be reopened are the one whose id
-- is reported and none where none is reported, and a marked unit has a number that no waiting
-- unit exceeds.
pub migrate_work_units_to_schema10-IsSettled :
    (shown : Json → Text) (now scope : Text) (raws : List Json) (active : Option Text)
    → IsSettled (migrate_work_units_to_schema10 shown now scope raws active)
unfolding migrate_work_units_to_schema10
migrate_work_units_to_schema10-IsSettled shown now scope raws active =
    let rows = normalize shown now scope raws in
    settle_units-IsSettled now (known_active active rows) rows
