-- ===== src/Files/Refs.antt =====
-- What `validateFileRefs` accepts.
use turnhive.Base.{
  ℕ, suc, ◌≡◌, ◌↔◌, refl, true, false, none, List, [], ◌∷◌, Bytes, codes, arith, bytes_eq,
}
use turnhive.Base.Int.{is_negative}
use turnhive.Files.{
  FileRef, matches_file_name, is_blank, contains, seen_before, validate_from, validate_file_refs,
}

-- A reference that can be attached, beside those seen before.
abbrev pub GoodRef : List Bytes → FileRef → Type 0
GoodRef seen f =
    (matches_file_name f.name ≡ true)
    × (seen_before f.name seen ≡ false)
    × (is_blank f.object_key ≡ false)
    × (contains (codes "..") f.object_key ≡ false)
    × (is_negative f.size ≡ false)

abbrev pub AllGood : List Bytes → List FileRef → Type 0
AllGood seen [] = Unit
AllGood seen (f ∷ fs) = GoodRef seen f × AllGood (f.name ∷ seen) fs

validate_from-good :
    (i : ℕ) (seen : List Bytes) (fs : List FileRef)
    → (validate_from i seen fs ≡ none) ↔ AllGood seen fs
unfolding validate_from
validate_from-good i seen [] = (λ e. tt, λ g. refl)
validate_from-good i seen (f ∷ fs) = ground (arith, validate_from-good (suc i) (f.name ∷ seen) fs)

-- A list of references passes the validation exactly when every name is a plain base name that no earlier
-- reference has, and every object key is no blank text, has no `..` in it, and comes with a size that is
-- not negative.
pub validate_file_refs-good : (fs : List FileRef) → (validate_file_refs fs ≡ none) ↔ AllGood [] fs
unfolding validate_file_refs
validate_file_refs-good fs = validate_from-good 0 [] fs
