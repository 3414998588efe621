-- ===== src/Resources/Images.antt =====
-- The checks of resource paths and the registry of root images. A path is a list of characters
-- without the terminating NUL, and `none` is a null pointer.
pub mod Components
pub mod Registry
use orlix_system.Prelude.{
  ℕ, zero, suc, ◌+◌, ◌*◌, ◌^◌, Bool, true, false, not, ◌&&◌, ◌||◌, Option, none, some, List, [],
  ◌∷◌, ◌++◌, ltb, leb, ◌==◌, if◌then◌else◌, length, set,
}
use orlix_system.HostMemory.User.{same_flag}
use orlix_system.Resources.Files.{FilePath}
use orlix_system.Resources.Blocks.{is_empty, max_block_devices}

-- '/' and '.'
abbrev pub slash : ℕ
slash = 47

abbrev pub dot : ℕ
dot = 46

-- What follows ".." makes it a whole component.
abbrev pub ends_component : FilePath → Bool
ends_component [] = true
ends_component (c ∷ rest) = c == slash

-- The loop over `strstr(cursor, "/..")`.
unfoldable pub parent_loop : FilePath → Bool
parent_loop [] = false
parent_loop (a ∷ []) = false
parent_loop (a ∷ b ∷ []) = false
parent_loop (a ∷ b ∷ c ∷ rest) = elim (a == slash && b == dot && c == dot) [
  | true ↦ ends_component rest || parent_loop rest
  | false ↦ parent_loop (b ∷ c ∷ rest)
]

abbrev pub starts_with_slash : FilePath → Bool
starts_with_slash [] = false
starts_with_slash (c ∷ rest) = c == slash

-- `strcmp(path, "..") == 0 || strncmp(path, "../", 3) == 0`
abbrev pub starts_with_parent : FilePath → Bool
starts_with_parent [] = false
starts_with_parent (a ∷ []) = false
starts_with_parent (a ∷ b ∷ rest) = a == dot && b == dot && ends_component rest

unfoldable pub path_contains_parent_reference : Option FilePath → Bool
unfolding parent_loop
path_contains_parent_reference none = true
path_contains_parent_reference (some path) =
    starts_with_slash path || starts_with_parent path || parent_loop path

unfoldable pub absolute_path_contains_parent_reference : Option FilePath → Bool
unfolding parent_loop
absolute_path_contains_parent_reference none = true
absolute_path_contains_parent_reference (some path) =
    not (starts_with_slash path) || parent_loop path

-- The strings of an image are C strings in arrays of PATH_MAX characters.
pub record RootImage : Type 0 where
  pub identifier : FilePath
  pub initrd_bundle_name : FilePath
  pub initrd_bundle_extension : FilePath
  pub initrd_resource : FilePath
  pub base_block_resource : FilePath
  pub state_block_resource : FilePath
  pub block_images_are_files : Bool
  pub base_block_device : ℕ
  pub state_block_device : ℕ
  pub state_block_minimum_bytes : ℕ

abbrev pub max_root_images : ℕ
max_root_images = 8

-- `strcmp(a, b) == 0`
abbrev pub same_string : FilePath → FilePath → Bool
same_string [] [] = true
same_string [] (b ∷ rest) = false
same_string (a ∷ rest) [] = false
same_string (a ∷ first) (b ∷ second) = a == b && same_string first second

abbrev pub has_slash : FilePath → Bool
has_slash [] = false
has_slash (c ∷ rest) = c == slash || has_slash rest

-- The first three `if`s of `OrlixHostRegisterRootImage`.
unfoldable pub refused_image : RootImage → Bool
unfolding path_contains_parent_reference
refused_image image =
    leb max_block_devices image.base_block_device
    || leb max_block_devices image.state_block_device
    || image.base_block_device == image.state_block_device
    || image.state_block_minimum_bytes == 0
    || not (same_flag (is_empty image.initrd_bundle_name) (is_empty image.initrd_bundle_extension))
    || has_slash image.initrd_bundle_name
    || path_contains_parent_reference (some image.initrd_bundle_name)
    || has_slash image.initrd_bundle_extension
    || path_contains_parent_reference (some image.initrd_bundle_extension)

-- The loop that finds the index of an image with an identifier.
unfoldable pub index_of : List RootImage → FilePath → Option ℕ
index_of [] identifier = none
index_of (x ∷ rest) identifier = elim (same_string x.identifier identifier) [
  | true ↦ some 0
  | false ↦ elim (index_of rest identifier) [ none ↦ none | some i ↦ some (suc i) ]
]

-- The list is the first OrlixHostRootImageCount elements of OrlixHostRootImages; `none` is the
-- result -1, which leaves them.
unfoldable pub register_root_image : List RootImage → RootImage → Option (List RootImage)
register_root_image images image =
    let stored : Option (List RootImage) = elim (index_of images image.identifier) [
      | some i ↦ some (set images i image)
      | none ↦ if leb max_root_images (length images) then none else some (images ++ (image ∷ []))
    ] in
    if refused_image image then none else stored

-- `OrlixHostCopyRootImageForIdentifier`
unfoldable pub copy_root_image : List RootImage → FilePath → Option RootImage
copy_root_image [] identifier = none
copy_root_image (x ∷ rest) identifier = elim (same_string x.identifier identifier) [
  | true ↦ some x
  | false ↦ copy_root_image rest identifier
]
