-- ===== src/Base/Paths.antt =====
-- `posixpath.normpath` and `posixpath.join`, as the standard library documents them.
use codex_context_guard.Base.Tests.{if◌then◌else◌}
use codex_context_guard.Base.Equality.{Text, ◌==◌, nat_eq, text_eq}
use codex_context_guard.Base.Lists.{is_empty}
use codex_context_guard.Base.Texts.{codes, starts_with, split, join}
use Prim.Native.Nat.{ℕ}
use mathlib.Core.Bool.{Bool, false, not, ◌&&◌, ◌||◌}
use mathlib.Core.List.{List, [], ◌∷◌, ◌++◌, reverse}

abbrev slash : ℕ
slash = 47

abbrev head_is : Text → List Text → Bool
head_is w [] = false
head_is w (v ∷ vs) = w == v

abbrev pop : List Text → List Text
pop [] = []
pop (v ∷ vs) = vs

-- The loop over the components; the kept ones stand last first.
unfoldable pub normal_parts : Bool → List Text → List Text → List Text
normal_parts rooted kept [] = reverse kept
normal_parts rooted kept (w ∷ ws) =
    normal_parts rooted
      (if is_empty w || w == codes "."
        then kept
        else if not (w == codes "..") || not rooted && is_empty kept || head_is (codes "..") kept
        then w ∷ kept
        else pop kept)
      ws

-- One slash is kept, or exactly two; three or more count as one.
unfoldable pub leading : Text → Text
unfolding starts_with
leading s =
    if starts_with s (codes "//") && not (starts_with s (codes "///"))
    then codes "//"
    else if starts_with s (codes "/")
    then codes "/"
    else []

unfoldable pub normpath : Text → Text
unfolding leading normal_parts split join starts_with
normpath s =
    let whole =
      leading s ++ join slash (normal_parts (starts_with s (codes "/")) [] (split slash s)) in
    if is_empty s || is_empty whole then codes "." else whole

abbrev ends_in_slash : Text → Bool
ends_in_slash [] = false
ends_in_slash (c ∷ []) = c == slash
ends_in_slash (c ∷ d ∷ s) = ends_in_slash (d ∷ s)

unfoldable pub path_join : Text → Text → Text
unfolding starts_with
path_join a b =
    if starts_with b (codes "/")
    then b
    else if is_empty a || ends_in_slash a
    then a ++ b
    else a ++ slash ∷ b
