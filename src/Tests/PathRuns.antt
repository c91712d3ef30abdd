-- ===== src/Tests/PathRuns.antt =====
-- Runs of kernel/vfs/path.cpp.
use influx.Base.{◌≡◌, refl, [], ◌∷◌}
use influx.Vfs.Path.{Text, FilePath, build_path, from_text, to_text}
use influx.Vfs.Path.Normal.{IsNormal, build_path-IsNormal}
use influx.Vfs.Path.RoundTrip.{build_path-to_text, from_text-to_text}

-- "/a/./../b"
abbrev crooked : Text
crooked = b'/' ∷ b'a' ∷ b'/' ∷ b'.' ∷ b'/' ∷ b'.' ∷ b'.' ∷ b'/' ∷ b'b' ∷ []

crooked_branches : build_path crooked ≡ [] ∷ (b'b' ∷ []) ∷ []
unfolding build_path
crooked_branches = refl

build_path-IsNormal_example : IsNormal (build_path crooked)
build_path-IsNormal_example = build_path-IsNormal crooked

-- "/b"
abbrev plain : FilePath
plain = record { branches = [] ∷ (b'b' ∷ []) ∷ [] }

plain-IsNormal : IsNormal plain.branches
plain-IsNormal = (
  tt,
  (record { whole = (λ e. cc, tt); filled = λ e. cc; no_dot = λ e. cc; no_dot_dot = λ e. cc }, tt),
)

build_path-to_text_example : build_path (to_text plain) ≡ plain.branches
build_path-to_text_example = build_path-to_text plain plain-IsNormal

from_text-to_text_example : from_text (to_text (from_text crooked)) ≡ from_text crooked
from_text-to_text_example = from_text-to_text crooked

-- "/.." builds the path of no branches, and "/../a" a relative path.
above_root : build_path (b'/' ∷ b'.' ∷ b'.' ∷ []) ≡ []
unfolding build_path
above_root = refl
