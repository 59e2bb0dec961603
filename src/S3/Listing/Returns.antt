-- ===== src/S3/Listing/Returns.antt =====
-- The loop of list_objects in ruststack-s3/src/storage/ephemeral.rs without a panic.
use ruststack.Prelude.{
  ◌≢◌, ◌==◌, eq_iff, ℕ, refl, ap, String, Option, none, some, List, [], ◌∷◌, string_eq, length, leb,
  arith, Bool-cases, inl, inr,
}
use ruststack.Dict.{get}
use ruststack.Text.{strip_prefix}
use ruststack.S3.Ephemeral.{InMemoryBucket}
use ruststack.S3.Listing.{
  Listing, Turn, skipped, grouped, shown, broken, grouping, through_delimiter, is_skipped,
  by_delimiter, turn_at, turn_of, show, list_turn, list_loop,
}

module _ (b : InMemoryBucket) (prefix : String) (delimiter skip_key : Option String) (max_keys : ℕ)
    (cuts : delimiter ≢ some "") where
  by_delimiter-unbroken :
      (d : Option String) (suffix : String) → d ≢ some "" → by_delimiter prefix d suffix ≢ broken
  by_delimiter-unbroken none suffix h = λ p. ground arith
  by_delimiter-unbroken (some delim) suffix h = elim (Bool-cases (delim == "")) [
    | inl e ↦ absurd (h (ap some ((eq_iff delim "").0 e)))
    | inr e ↦ rw e (grouping_unbroken (through_delimiter delim suffix))
  ]
    where
      grouping_unbroken : (cut : Option String) → grouping prefix cut ≢ broken
      grouping_unbroken none = λ p. ground arith
      grouping_unbroken (some cut) = λ p. ground arith

  turn_at-unbroken :
      (key : String) (cut : Option String) → turn_at prefix delimiter skip_key key cut ≢ broken
  turn_at-unbroken key none = λ p. ground arith
  turn_at-unbroken key (some suffix) = elim (Bool-cases (is_skipped skip_key key)) [
    | inl e ↦ rw e (λ p. ground arith)
    | inr e ↦ rw e (by_delimiter-unbroken delimiter suffix cuts)
  ]

  list_turn-returns :
      (again : Listing → Option Listing) (key : String) (l : Listing) (turn : Turn)
      → ((l : Listing) → again l ≢ none)
      → turn ≢ broken
      → list_turn b prefix delimiter skip_key max_keys again key l turn ≢ none
  list_turn-returns again key l skipped h k = h l
  list_turn-returns again key l (grouped p) h k = h _
  list_turn-returns again key l broken h k = absurd (k refl)
  list_turn-returns again key l shown h k =
      let next : Listing = show key (get key b.objects) l in
      elim (Bool-cases (leb max_keys (length next.objects))) [
        | inl e ↦ rw e (λ p. ground arith)
        | inr e ↦ rw e (h next)
      ]

  pub list_loop-returns :
      (all_keys : List String) (l : Listing)
      → list_loop b prefix delimiter skip_key max_keys all_keys l ≢ none
  unfolding list_loop turn_of
  list_loop-returns [] l = λ p. ground arith
  list_loop-returns (key ∷ all_keys) l =
      list_turn-returns (list_loop b prefix delimiter skip_key max_keys all_keys) key l
        (turn_of prefix delimiter skip_key key) (list_loop-returns all_keys)
        (turn_at-unbroken key (strip_prefix key prefix))
