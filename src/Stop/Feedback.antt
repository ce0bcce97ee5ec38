-- ===== src/Stop/Feedback.antt =====
-- scripts/cg_stop3.py: the bounded feedback of a Stop.
use codex_context_guard.Base.{
  ℕ, ◌-◌, ◌/◌, List, [], ◌∷◌, ◌++◌, Text, nat_eq, ◌==◌, ltb, leb, length, take, is_empty,
  if◌then◌else◌,
}
use codex_context_guard.Base.Decimal.{ℤ, pos, negsuc, decimal}
use codex_context_guard.Base.Texts.{codes, is_space, join, rstrip}

-- `text.split()`: the words between white space, after the word that is being read.
unfoldable pub words_from : Text → Text → List Text
words_from word [] = if is_empty word then [] else word ∷ []
words_from word (c ∷ s) =
    let later = words_from [] s in
    let longer = words_from (word ++ c ∷ []) s in
    if is_space c then (if is_empty word then later else word ∷ later) else longer

unfoldable pub truncate : Text → ℕ → Text
truncate value limit =
    let text = join 32 (words_from [] value) in
    if leb (length text) limit then text else rstrip is_space (take (limit - 1) text) ++ 8230 ∷ []

unfoldable pub max : ℕ → ℕ → ℕ
max a b = if ltb a b then b else a

-- `max(0, int(pending_items))`
unfoldable pub item_count : ℤ → ℕ
item_count (pos n) = n
item_count (negsuc n) = 0

unfoldable pub unit_text : ℕ → Text
unit_text count =
    if count == 0
    then codes "current work unit (no unverified items)"
    else codes "current work unit ("
      ++ decimal (pos count)
      ++ codes " unverified "
      ++ (if count == 1 then codes "item" else codes "items")
      ++ codes ")"

-- `template.format(...)`
unfoldable pub feedback_text : Text → Text → Text → Text
feedback_text unit reason step =
    codes "Context Guard: " ++ unit ++ codes ": " ++ reason ++ codes ". Next: " ++ step ++ codes "."

unfoldable pub reason_room : ℕ → ℕ
reason_room room = max 24 (room / 2)

unfoldable pub step_room : ℕ → ℕ
step_room room = max 24 (room - reason_room room)

-- What the fixed part leaves of the 240 characters.
unfoldable pub room_of : Text → ℕ
room_of unit = 240 - length (feedback_text unit [] [])

-- The feedback before its last cut.
unfoldable pub fitted : Text → Text → Text → Text
fitted unit reason next_step =
    let room = room_of unit in
    if leb room 20
    then feedback_text unit (truncate reason 40) (truncate next_step 40)
    else feedback_text unit (truncate reason (reason_room room))
        (truncate next_step (step_room room))

unfoldable pub bounded_stop_feedback : ℤ → Text → Text → Text
bounded_stop_feedback pending_items reason next_step =
    let message = fitted (unit_text (item_count pending_items)) reason next_step in
    if ltb 240 (length message) then rstrip is_space (take 239 message) ++ 8230 ∷ [] else message
