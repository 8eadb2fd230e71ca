-- ===== src/Utils/Subpath.antt =====
-- `is_subpath` of src/common/utils.cpp. A path is the list of its components, as its iterators
-- give them.
use cpp_tftp.Common.{
  ◌≡◌, ◌↔◌, inl, inr, refl, Bool, true, List, [], ◌∷◌, ◌++◌, if◌then◌else◌, Bool-cases, is_empty,
  equal, equal_iff, equal_refl, Bytes,
}

abbrev pub FilePath : Type 0
FilePath = List Bytes

-- `std::mismatch` over two ranges: what is left of each where they first differ, or one ends.
mismatch : FilePath → FilePath → FilePath × FilePath
mismatch [] base = ([], base)
mismatch (p ∷ path) [] = (p ∷ path, [])
mismatch (p ∷ path) (b ∷ base) =
    let later = mismatch path base in if equal p b then later else (p ∷ path, b ∷ base)

unfoldable pub is_subpath : FilePath → FilePath → Bool
unfolding mismatch
is_subpath path base = is_empty (mismatch path base).1

is_subpath-prefix :
    (path base : FilePath) → is_subpath path base ≡ true → (rest : FilePath) × (path ≡ base ++ rest)
unfolding is_subpath
is_subpath-prefix path [] h = (path, refl)
is_subpath-prefix [] (b ∷ base) h = cc
is_subpath-prefix (p ∷ path) (b ∷ base) h = elim (Bool-cases (equal p b)) [
  | inl e ↦
      let (rest, q) = is_subpath-prefix path base (rw e at h) in (rest, cc ((equal_iff p b).0 e, q))
  | inr e ↦ cc (rw e at h)
]

is_subpath-append : (base rest : FilePath) → is_subpath (base ++ rest) base ≡ true
unfolding is_subpath
is_subpath-append [] [] = refl
is_subpath-append [] (r ∷ rest) = refl
is_subpath-append (b ∷ base) rest = rw (equal_refl b) (is_subpath-append base rest)

-- A path is accepted exactly when it continues the base, component by component.
pub is_subpath_iff :
    (path base : FilePath)
    → (is_subpath path base ≡ true) ↔ ((rest : FilePath) × (path ≡ base ++ rest))
is_subpath_iff path base = (is_subpath-prefix path base, λ e. rw e.1 (is_subpath-append base e.0))
