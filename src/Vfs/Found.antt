-- ===== src/Vfs/Found.antt =====
-- The vnode of a file that is open, `get_vnode_for_file` of kernel/vfs/vfs.cpp.
use influx.Base.{
  ℕ, suc, ◌+◌, ◌≡◌, refl, ap, ◌∙◌, Bool-cases, [], ◌∷◌, none, some, get_elem?, arith, ◌⊎◌, inl, inr,
}
use influx.Vfs.Data.{Table, Vnode, FileSystems}
use influx.Vfs.Nodes.{Vfs, get_vnode_for_file, find_vnode, is_vnode_of}

-- The vnode that is found stands in its slot.
find_vnode_from :
    {W D : Type 0} (systems : FileSystems W D) (fs : ℕ) (fs_data : D) (i : ℕ)
    (slots : Table (Vnode D))
    → (find_vnode systems fs fs_data i slots ≡ none)
      ⊎ ((k : ℕ) × (vn : Vnode D) × (find_vnode systems fs fs_data i slots ≡ some (k + i))
          × (get_elem? slots k ≡ some (some vn)))
unfolding find_vnode
find_vnode_from systems fs fs_data i [] = inl refl
find_vnode_from systems fs fs_data i (none ∷ slots) =
    elim (find_vnode_from systems fs fs_data (suc i) slots) [
      | inl e ↦ inl e
      | inr (k, vn, e, h) ↦ inr (suc k, vn, e ∙ ap some (omega arith), h)
    ]
find_vnode_from systems fs fs_data i (some vn ∷ slots) =
    elim (Bool-cases (is_vnode_of systems fs fs_data vn)) [
      | inl same ↦ inr (0, vn, rw same (ap some (omega arith)), refl)
      | inr other ↦ elim (find_vnode_from systems fs fs_data (suc i) slots) [
        | inl e ↦ inl (rw other e)
        | inr (k, vn', e, h) ↦ inr (suc k, vn', rw other (e ∙ ap some (omega arith)), h)
      ]
    ]

pub get_vnode_for_file_cases :
    {W D : Type 0} (systems : FileSystems W D) (s : Vfs W D) (fs : ℕ) (fs_data : D)
    → (get_vnode_for_file systems s fs fs_data ≡ none)
      ⊎ ((k : ℕ) × (vn : Vnode D) × (get_vnode_for_file systems s fs fs_data ≡ some k)
          × (get_elem? s.vnodes k ≡ some (some vn)))
unfolding get_vnode_for_file
get_vnode_for_file_cases systems s fs fs_data =
    elim (find_vnode_from systems fs fs_data 0 s.vnodes) [
      | inl e ↦ inl e
      | inr (k, vn, e, h) ↦ inr (k, vn, e ∙ ap some (omega arith), h)
    ]
