-- ===== src/Resources/Images/Components.antt =====
-- The checks of paths and the components of a path.
use orlix_system.Prelude.{
  ◌≡◌, refl, ◌∙◌, Bool, true, false, not, ◌&&◌, ◌||◌, some, List, [], ◌∷◌, ◌==◌, if◌then◌else◌,
  arith, Bool-cases, inl, inr,
}
use orlix_system.Resources.Files.{FilePath}
use orlix_system.Resources.Images.{
  slash, dot, parent_loop, starts_with_slash, starts_with_parent, path_contains_parent_reference,
  absolute_path_contains_parent_reference,
}

-- The first component of a path, and the others.
abbrev pub split_path : FilePath → FilePath × List FilePath
split_path [] = ([], [])
split_path (c ∷ rest) =
    let (first, others) = split_path rest in
    if c == slash then ([], first ∷ others) else (c ∷ first, others)

abbrev pub is_parent : FilePath → Bool
is_parent [] = false
is_parent (a ∷ []) = false
is_parent (a ∷ b ∷ []) = a == dot && b == dot
is_parent (a ∷ b ∷ c ∷ rest) = false

abbrev pub some_parent : List FilePath → Bool
some_parent [] = false
some_parent (c ∷ rest) = is_parent c || some_parent rest

-- ".." at a slash or after one, position by position.
abbrev scan : FilePath → Bool
scan [] = false
scan (c ∷ rest) = (c == slash && starts_with_parent rest) || scan rest

parent_loop-scan : (p : FilePath) → parent_loop p ≡ scan p
unfolding parent_loop
parent_loop-scan [] = refl
parent_loop-scan (a ∷ []) = ground arith
parent_loop-scan (a ∷ b ∷ []) = ground arith
parent_loop-scan (a ∷ b ∷ c ∷ rest) = elim (Bool-cases (a == slash && b == dot && c == dot)) [
  | inl there ↦ rw (parent_loop, there) (ground (arith, there, parent_loop-scan rest))
  | inr not_there ↦
      rw (parent_loop, not_there) (ground (arith, not_there, parent_loop-scan (b ∷ c ∷ rest)))
]

first-parent : (p : FilePath) → starts_with_parent p ≡ is_parent (split_path p).0
first-parent [] = refl
first-parent (a ∷ []) = ground arith
first-parent (a ∷ b ∷ []) = ground arith
first-parent (a ∷ b ∷ c ∷ rest) = ground arith

scan-others : (p : FilePath) → scan p ≡ some_parent (split_path p).1
scan-others [] = refl
scan-others (c ∷ rest) = ground (arith, first-parent rest, scan-others rest)

or_assoc : (a b c : Bool) → (a || b || c) ≡ (a || (b || c))
or_assoc true b c = refl
or_assoc false b c = refl

absolute :
    (p : FilePath)
    → (not (starts_with_slash p) || some_parent (split_path p).1)
      ≡ (not (starts_with_slash p) || (is_parent (split_path p).0 || some_parent (split_path p).1))
absolute [] = refl
absolute (c ∷ rest) = elim (Bool-cases (c == slash)) [
  | inl at_slash ↦ rw (at_slash) refl
  | inr elsewhere ↦ rw (elsewhere) refl
]

-- A relative path is refused exactly if it starts with a slash or one of its components is "..",
-- and an absolute path exactly if it does not start with one or one of its components is "..".
pub parent_references :
    (p : FilePath)
    → (path_contains_parent_reference (some p)
        ≡ (starts_with_slash p || some_parent ((split_path p).0 ∷ (split_path p).1)))
      × (absolute_path_contains_parent_reference (some p)
          ≡ (not (starts_with_slash p) || some_parent ((split_path p).0 ∷ (split_path p).1)))
unfolding path_contains_parent_reference absolute_path_contains_parent_reference
parent_references p =
    let others = parent_loop-scan p ∙ scan-others p in
    (rw (first-parent p, others) (or_assoc (starts_with_slash p) _ _), rw (others) (absolute p))
