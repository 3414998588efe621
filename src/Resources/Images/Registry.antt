-- ===== src/Resources/Images/Registry.antt =====
-- What the registry of root images holds after an image has been registered.
use orlix_system.Prelude.{
  ℕ, suc, ◌≤◌, ◌≡◌, refl, ap, ◌∙◌, true, false, none, some, List, [], ◌∷◌, ◌++◌, if◌then◌else◌,
  arith, Bool-cases, Option-cases, inl, inr, leb, length, set, length-set, length-append, some_eq,
}
use orlix_system.Resources.Files.{FilePath}
use orlix_system.Resources.Images.{
  RootImage, max_root_images, same_string, refused_image, index_of, register_root_image,
  copy_root_image,
}

same_string-eq : (a b : FilePath) → same_string a b ≡ true → a ≡ b
same_string-eq [] [] e = refl
same_string-eq [] (b ∷ ys) e = absurd (ground (arith, e))
same_string-eq (a ∷ xs) [] e = absurd (ground (arith, e))
same_string-eq (a ∷ xs) (b ∷ ys) e =
    let head : a ≡ b = ground (arith, e) in rw (head, same_string-eq xs ys (ground (arith, e))) refl

same_string_self : (a : FilePath) → same_string a a ≡ true
same_string_self [] = refl
same_string_self (a ∷ xs) = ground (arith, same_string_self xs)

-- Two identifiers that are the same as a third are the same.
apart_from :
    (a b c : FilePath) → same_string a b ≡ false → same_string a c ≡ true → same_string b c ≡ false
apart_from a b c other same = elim (Bool-cases (same_string b c)) [
  | inr e ↦ e
  | inl e ↦
      let twins : same_string a b ≡ true =
        rw (same_string-eq a c same, same_string-eq b c e) (same_string_self c) in
      absurd (ground (arith, twins, other))
]

append_lookup :
    (image : RootImage) (images : List RootImage) (identifier : FilePath)
    → index_of images image.identifier ≡ none
    → copy_root_image (images ++ (image ∷ [])) identifier ≡ (
        if same_string image.identifier identifier
        then some image
        else copy_root_image images identifier)
unfolding copy_root_image index_of
append_lookup image [] identifier = λ e.
    elim (Bool-cases (same_string image.identifier identifier)) [
      | inl same ↦ rw (copy_root_image, same) refl
      | inr other ↦ rw (copy_root_image, other) refl
    ]
append_lookup image (x ∷ rest) identifier =
    elim (Bool-cases (same_string x.identifier image.identifier)) [
      | inl same ↦ rw (index_of, same) (λ e. absurd (ground (arith, e)))
      | inr other ↦ elim (Option-cases (index_of rest image.identifier)) [
        | inr (i, found) ↦ rw (index_of, other, found) (λ e. absurd (ground (arith, e)))
        | inl absent ↦
            rw (index_of, other, absent)
              (λ e. elim (Bool-cases (same_string x.identifier identifier)) [
                | inl here ↦
                    rw
                      (
                        copy_root_image,
                        here,
                        apart_from x.identifier image.identifier identifier other here,
                      )
                      refl
                | inr there ↦
                    rw (copy_root_image, there) (append_lookup image rest identifier absent)
              ])
      ]
    ]

first_lookup :
    (image x : RootImage) (rest : List RootImage) (identifier : FilePath)
    → same_string x.identifier image.identifier ≡ true
    → copy_root_image (image ∷ rest) identifier ≡ (
        if same_string image.identifier identifier
        then some image
        else copy_root_image (x ∷ rest) identifier)
unfolding copy_root_image
first_lookup image x rest identifier twin =
    elim (Bool-cases (same_string image.identifier identifier)) [
      | inl same ↦ rw (copy_root_image, same) refl
      | inr other ↦
          let other' : same_string x.identifier identifier ≡ false =
            ap (λ (a : FilePath). same_string a identifier)
              (same_string-eq x.identifier image.identifier twin)
            ∙ other in
          rw (copy_root_image, other, other') refl
    ]

set_lookup :
    (image : RootImage) (images : List RootImage) (i : ℕ) (identifier : FilePath)
    → index_of images image.identifier ≡ some i
    → copy_root_image (set images i image) identifier ≡ (
        if same_string image.identifier identifier
        then some image
        else copy_root_image images identifier)
unfolding copy_root_image index_of
set_lookup image [] i identifier = λ e. absurd (ground (arith, e))
set_lookup image (x ∷ rest) i identifier =
    elim (Bool-cases (same_string x.identifier image.identifier)) [
      | inl same ↦
          rw (index_of, same)
            (λ e. rw (← (some_eq 0 i e)) (first_lookup image x rest identifier same))
      | inr other ↦ elim (Option-cases (index_of rest image.identifier)) [
        | inl absent ↦ rw (index_of, other, absent) (λ e. absurd (ground (arith, e)))
        | inr (k, found) ↦
            rw (index_of, other, found)
              (λ e.
                rw (← (some_eq (suc k) i e))
                  (elim (Bool-cases (same_string x.identifier identifier)) [
                    | inl here ↦
                        rw
                          (
                            copy_root_image,
                            here,
                            apart_from x.identifier image.identifier identifier other here,
                          )
                          refl
                    | inr there ↦
                        rw (copy_root_image, there) (set_lookup image rest k identifier found)
                  ]))
      ]
    ]

-- After an image has been registered among at most 8, its identifier finds it, every other identifier finds what it
-- found before, and the image is one that is not refused; there are never more than 8 images.
pub register-lookup :
    (images images' : List RootImage) (image : RootImage)
    → length images ≤ max_root_images
    → register_root_image images image ≡ some images'
    → (refused_image image ≡ false)
      × (length images' ≤ max_root_images)
      × ((identifier : FilePath)
          → copy_root_image images' identifier ≡ (
              if same_string image.identifier identifier
              then some image
              else copy_root_image images identifier))
unfolding register_root_image
register-lookup images images' image small = elim (Bool-cases (refused_image image)) [
  | inl bad ↦ rw (register_root_image, bad) (λ e. absurd (ground (arith, e)))
  | inr good ↦ elim (Option-cases (index_of images image.identifier)) [
    | inr (i, found) ↦
        rw (register_root_image, good, found)
          (λ e. rw (← (some_eq (set images i image) images' e)) (
            refl,
            omega (arith, length-set images i image),
            λ identifier. set_lookup image images i identifier found,
          ))
    | inl absent ↦ elim (Bool-cases (leb max_root_images (length images))) [
      | inl full ↦ rw (register_root_image, good, absent, full) (λ e. absurd (ground (arith, e)))
      | inr room ↦
          rw (register_root_image, good, absent, room)
            (λ e. rw (← (some_eq (images ++ (image ∷ [])) images' e)) (
              refl,
              ground (arith, room, length-append images (image ∷ [])),
              λ identifier. append_lookup image images identifier absent,
            ))
    ]
  ]
]
