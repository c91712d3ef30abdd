-- ===== src/Vfs/Path.antt =====
-- Paths of kernel/vfs/path.cpp and include/kernel/vfs/path.h. A string is the list of its bytes, none of
-- them 0.
pub mod Normal
pub mod RoundTrip
use influx.Base.{
  ℕ, zero, suc, ◌+◌, ◌-◌, Bool, true, false, not, ◌&&◌, ◌||◌, List, [], ◌∷◌, ◌++◌, Option, none,
  some, length, ltb, leb, ◌==◌, if◌then◌else◌,
}
use mathlib.Core.List.{reverse}

abbrev pub Text : Type 0
Text = List ℕ

abbrev pub divider : ℕ
divider = b'/'

abbrev pub dot : Text
dot = b'.' ∷ []

abbrev pub dot_dot : Text
dot_dot = b'.' ∷ b'.' ∷ []

-- `operator==` of strings.
unfoldable pub text_eq : Text → Text → Bool
text_eq [] [] = true
text_eq [] (b ∷ t) = false
text_eq (a ∷ s) [] = false
text_eq (a ∷ s) (b ∷ t) = a == b && text_eq s t

pub record FilePath : Type 0 where
  pub branches : List Text

-- `branches += branch` and the trimming behind it. The vector stands with its end first.
unfoldable pub push_branch : Text → List Text → List Text
unfolding text_eq
push_branch branch [] = branch ∷ []
push_branch branch (last ∷ rest) =
    if text_eq branch dot_dot
    then rest
    else if text_eq branch dot
    then last ∷ rest
    else branch ∷ last ∷ rest

-- The loop of `build_path`. The flag is `branch_start == 0`; `branch` holds the `branch_size` bytes from
-- `branch_start` on, the latest first.
unfoldable pub build_loop : Bool → Text → List Text → Text → List Text
unfolding push_branch
build_loop first branch branches [] =
    if length branch == 0 then branches else push_branch (reverse branch) branches
build_loop first branch branches (c ∷ text) =
    if c == divider
    then build_loop false []
        (if first || ltb 0 (length branch) then push_branch (reverse branch) branches else branches)
        text
    else build_loop first (c ∷ branch) branches text

unfoldable pub build_path : Text → List Text
unfolding build_loop
build_path text = reverse (build_loop true [] [] text)

unfoldable pub from_text : Text → FilePath
unfolding build_path
from_text text = record { branches = build_path text }

-- The loop of `string()`.
unfoldable pub join : List Text → Text
join [] = []
join (branch ∷ branches) = branch ++ (divider ∷ join branches)

-- `resize` to a size that is one smaller.
unfoldable pub drop_last : Text → Text
drop_last [] = []
drop_last (c ∷ []) = []
drop_last (c ∷ d ∷ text) = c ∷ drop_last (d ∷ text)

unfoldable pub to_text : FilePath → Text
unfolding join drop_last
to_text p = let text = join p.branches in if ltb 1 (length text) then drop_last text else text

unfoldable pub is_root : FilePath → Bool
unfolding text_eq
is_root p = elim p.branches [ [] ↦ false | branch ∷ rest ↦ length rest == 0 && text_eq branch [] ]

-- `operator+`
unfoldable pub append : FilePath → FilePath → FilePath
unfolding from_text to_text is_root
append p q = from_text (to_text p ++ ((if is_root p then [] else divider ∷ []) ++ to_text q))

-- The loop of `is_parent`: the branches of the supposed parent, and those of the path.
unfoldable pub starts_with : List Text → List Text → Bool
unfolding text_eq
starts_with [] branches = true
starts_with (b ∷ parent) [] = false
starts_with (b ∷ parent) (c ∷ branches) = text_eq b c && starts_with parent branches

-- `this->is_parent(p)`: whether `p` is a parent of `this`.
unfoldable pub is_parent : FilePath → FilePath → Bool
unfolding starts_with
is_parent this p =
    if leb (length this.branches) (length p.branches)
    then false
    else starts_with p.branches this.branches

unfoldable pub is_empty : FilePath → Bool
is_empty p = length p.branches == 0

unfoldable pub is_relative : FilePath → Bool
is_relative p = elim p.branches [ [] ↦ false | branch ∷ rest ↦ not (length branch == 0) ]

unfoldable pub is_absolute : FilePath → Bool
unfolding is_relative
is_absolute p = not (is_relative p)

unfoldable pub pop_back : List Text → List Text
pop_back [] = []
pop_back (b ∷ []) = []
pop_back (b ∷ c ∷ branches) = b ∷ pop_back (c ∷ branches)

unfoldable pub parent_path : FilePath → FilePath
unfolding pop_back
parent_path p =
    if ltb 1 (length p.branches)
    then record { branches = pop_back p.branches }
    else record { branches = [] }

unfoldable pub last_or_empty : List Text → Text
last_or_empty [] = []
last_or_empty (b ∷ []) = b
last_or_empty (b ∷ c ∷ branches) = last_or_empty (c ∷ branches)

unfoldable pub base_name : FilePath → Text
unfolding last_or_empty
base_name p = last_or_empty p.branches

-- `operator==` with a path, and with a string, which the source answers the other way round.
unfoldable pub equals : FilePath → FilePath → Bool
unfolding text_eq to_text
equals p q = text_eq (to_text p) (to_text q)

unfoldable pub equals_text : FilePath → Text → Bool
unfolding text_eq to_text
equals_text p text = not (text_eq (to_text p) text)
