-- ===== src/Stop/Lengths.antt =====
-- scripts/cg_stop3.py: the length of the feedback of a Stop.
use codex_context_guard.Base.{
  ℕ, zero, suc, ◌+◌, ◌-◌, ◌≡◌, ◌≤◌, ◌<◌, ◌⊎◌, inl, inr, refl, Bool-cases, ◌&&◌, Bool, true, [], ◌∷◌,
  ◌++◌, Text, nat_eq, ltb, leb, leb→le, length, length-append, take, is_empty, arith,
}
use codex_context_guard.Base.Decimal.{ℤ}
use codex_context_guard.Base.Texts.{codes, is_space, join, rstrip}
use codex_context_guard.Stop.Feedback.{
  words_from, truncate, max, item_count, unit_text, reason_room, step_room, room_of, feedback_text,
  fitted, bounded_stop_feedback,
}

length-rstrip : (p : ℕ → Bool) (s : Text) → length (rstrip p s) ≤ length s
unfolding rstrip
length-rstrip p [] = ground arith
length-rstrip p (c ∷ s) =
    let rest = length-rstrip p s in
    elim (Bool-cases (is_empty (rstrip p s) && p c)) [
      | inl gone ↦ rw gone ground arith
      | inr kept ↦ rw kept ground arith
    ]

length-take_le : (n : ℕ) (s : Text) → length (take n s) ≤ n
length-take_le zero s = ground arith
length-take_le (suc n) [] = ground arith
length-take_le (suc n) (c ∷ s) = let rest = length-take_le n s in omega arith

-- A text that is cut, with the dots after it.
length-cut : (n : ℕ) (s : Text) → length (rstrip is_space (take n s) ++ 8230 ∷ []) ≤ suc n
length-cut n s =
    let cut = length-rstrip is_space (take n s) in
    let taken = length-take_le n s in
    rw (length-append (rstrip is_space (take n s)) (8230 ∷ [])) omega arith

length-truncate : (value : Text) (limit : ℕ) → 1 ≤ limit → length (truncate value limit) ≤ limit
unfolding truncate
length-truncate value limit some_room =
    let text = join 32 (words_from [] value) in
    elim (Bool-cases (leb (length text) limit)) [
      | inl fits ↦ rw fits (leb→le (length text) limit fits)
      | inr longer ↦ let cut = length-cut (limit - 1) text in rw longer omega arith
    ]

length-feedback_text :
    (unit reason step : Text)
    → length (feedback_text unit reason step) ≡ 26 + length unit + length reason + length step
unfolding feedback_text
length-feedback_text unit reason step =
    let named = unit ++ codes ": " in
    let reasoned = named ++ reason in
    let followed = reasoned ++ codes ". Next: " in
    let stepped = followed ++ step in
    let a = length-append unit (codes ": ") in
    let b = length-append named reason in
    let c = length-append reasoned (codes ". Next: ") in
    let d = length-append followed step in let e = length-append stepped (codes ".") in omega arith

room_of_lem : (unit : Text) → room_of unit ≡ 214 - length unit
unfolding room_of
room_of_lem unit = let fixed = length-feedback_text unit [] [] in omega arith

-- Two texts share the room where it is wide enough.
rooms_fit :
    (room : ℕ)
    → 48 ≤ room
    → (1 ≤ reason_room room) × (1 ≤ step_room room) × (reason_room room + step_room room ≤ room)
unfolding reason_room step_room max
rooms_fit room wide = (ground arith, ground arith, ground arith)

length-fitted :
    (unit reason next_step : Text) → length unit ≤ 166 → length (fitted unit reason next_step) ≤ 240
unfolding fitted
length-fitted unit reason next_step short =
    let room = room_of unit in
    let enough = room_of_lem unit in
    let (some_reason, some_step, fit) = rooms_fit room (omega arith) in
    let r = length-truncate reason (reason_room room) some_reason in
    let s = length-truncate next_step (step_room room) some_step in
    let whole =
      length-feedback_text unit (truncate reason (reason_room room))
        (truncate next_step (step_room room)) in
    elim (Bool-cases (leb (room_of unit) 20)) [
      | inl narrow ↦ let low = leb→le (room_of unit) 20 narrow in rw narrow omega arith
      | inr wide ↦ rw wide omega arith
    ]

fitted_form :
    (unit reason next_step : Text)
    → (r : Text) × (s : Text) × (fitted unit reason next_step ≡ feedback_text unit r s)
unfolding fitted
fitted_form unit reason next_step = elim (Bool-cases (leb (room_of unit) 20)) [
  | inl narrow ↦ (truncate reason 40, truncate next_step 40, rw narrow refl)
  | inr wide ↦ (
    truncate reason (reason_room (room_of unit)),
    truncate next_step (step_room (room_of unit)),
    rw wide refl,
  )
]

-- Only a unit that is too long makes the feedback too long.
fitted_long :
    (unit reason next_step : Text)
    → ltb 240 (length (fitted unit reason next_step)) ≡ true
    → 166 < length unit
fitted_long unit reason next_step long = elim (Bool-cases (leb (length unit) 166)) [
  | inr wide ↦ ground arith
  | inl short ↦
      let fits = length-fitted unit reason next_step (leb→le (length unit) 166 short) in
      ground arith
]

-- The feedback has the sentence of the unit, a reason and a step.
pub IsWhole : Text → Text → Type 0
IsWhole unit message = (reason : Text) × (step : Text) × (message ≡ feedback_text unit reason step)

-- The feedback has at most 240 characters; and unless the unit alone takes more than 166 it is not
-- cut at its end: it is the whole sentence, with the unit, a reason and a next step.
pub length-bounded_stop_feedback :
    (pending_items : ℤ) (reason next_step : Text)
    → (length (bounded_stop_feedback pending_items reason next_step) ≤ 240)
      × ((166 < length (unit_text (item_count pending_items)))
          ⊎ IsWhole
              (unit_text (item_count pending_items))
              (bounded_stop_feedback pending_items reason next_step))
unfolding bounded_stop_feedback IsWhole
length-bounded_stop_feedback pending_items reason next_step =
    let unit = unit_text (item_count pending_items) in
    let message = fitted unit reason next_step in
    elim (Bool-cases (ltb 240 (length message))) [
      | inr fits ↦ rw fits (ground arith, inr (fitted_form unit reason next_step))
      | inl long ↦ rw long (length-cut 239 message, inl (fitted_long unit reason next_step long))
    ]
