-- ===== src/S3/Listing/Sorted.antt =====
-- Sorting the objects of a listing in ruststack-s3/src/storage/ephemeral.rs.
use ruststack.Prelude.{
  suc, ◌≡◌, refl, ap, List, [], ◌∷◌, string_eq, length, arith, All, Bool-cases, inl, inr,
}
use ruststack.S3.Types.{ObjectSummary}
use ruststack.S3.Listing.{at_most, insert_object, sort_objects}

length-insert_object :
    (object : ObjectSummary) (objects : List ObjectSummary)
    → length (insert_object object objects) ≡ suc (length objects)
length-insert_object object [] = refl
length-insert_object object (other ∷ objects) = elim (Bool-cases (at_most object.key other.key)) [
  | inl e ↦ rw e refl
  | inr e ↦ rw e (ap suc (length-insert_object object objects))
]

pub length-sort_objects :
    (objects : List ObjectSummary) → length (sort_objects objects) ≡ length objects
unfolding sort_objects
length-sort_objects [] = refl
length-sort_objects (object ∷ objects) =
    omega (arith, length-insert_object object (sort_objects objects), length-sort_objects objects)

module _ (P : ObjectSummary → Type 0) where
  insert_object-All :
      (object : ObjectSummary) (objects : List ObjectSummary)
      → P object
      → All P objects
      → All P (insert_object object objects)
  insert_object-All object [] h k = (h, k)
  insert_object-All object (other ∷ objects) h (j, k) =
      elim (Bool-cases (at_most object.key other.key)) [
        | inl e ↦ rw e (h, (j, k))
        | inr e ↦ rw e (j, insert_object-All object objects h k)
      ]

  pub sort_objects-All :
      (objects : List ObjectSummary) → All P objects → All P (sort_objects objects)
  unfolding sort_objects
  sort_objects-All [] h = tt
  sort_objects-All (object ∷ objects) (h, k) =
      insert_object-All object (sort_objects objects) h (sort_objects-All objects k)
