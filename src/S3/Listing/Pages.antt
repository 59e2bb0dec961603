-- ===== src/S3/Listing/Pages.antt =====
-- What a page of list_objects in ruststack-s3/src/storage/ephemeral.rs holds.
use ruststack.Prelude.{
  ◌≢◌, ℕ, suc, ◌≤◌, ◌≡◌, ◌↔◌, refl, ap, String, Bool, true, false, Option, none, some, List, [],
  ◌∷◌, string_eq, length, length-append, leb, is_some, arith, All, All-append, Bool-cases,
  Option-cases, inl, inr,
}
use ruststack.Prelude.Int.{pos}
use ruststack.Dict.{get, keys}
use ruststack.Result.{ok}
use ruststack.Text.{strip_prefix, starts_with}
use ruststack.S3.Types.{ObjectSummary, ListObjectsResult}
use ruststack.S3.Ephemeral.{InMemoryObject, InMemoryBucket, EphemeralStorage}
use ruststack.S3.Listing.Sorted.{length-sort_objects, sort_objects-All}
use ruststack.S3.Listing.Returns.{list_loop-returns}
use ruststack.S3.Listing.{
  Base64, Listing, summary, push_summary, Turn, skipped, grouped, shown, broken, is_skipped,
  turn_at, turn_of, show, list_turn, list_loop, sort_keys, bind_option, empty_listing, answer_of,
  or_empty, list_objects,
}

module _ (b : InMemoryBucket) (prefix : String) (delimiter skip_key : Option String) where
  -- The summary is that of an object of the bucket, with the prefix and behind the key to skip.
  abbrev pub IsListed : ObjectSummary → Type 0
  IsListed object =
      ((entry : InMemoryObject) × (get object.key b.objects ≡ some entry)
        × (object ≡ summary object.key entry))
      × (starts_with object.key prefix ≡ true)
      × (is_skipped skip_key object.key ≡ false)

  turn_at-shown :
      (key : String) (cut : Option String)
      → turn_at prefix delimiter skip_key key cut ≡ shown
      → (is_some cut ≡ true) × (is_skipped skip_key key ≡ false)
  turn_at-shown key none h = absurd (ground arith)
  turn_at-shown key (some suffix) h = elim (Bool-cases (is_skipped skip_key key)) [
    | inl e ↦ absurd (ground arith)
    | inr e ↦ (refl, e)
  ]

  push_summary-IsListed :
      (key : String) (objects : List ObjectSummary)
      → turn_of prefix delimiter skip_key key ≡ shown
      → All IsListed objects
      → All IsListed (push_summary key (get key b.objects) objects)
  unfolding turn_of starts_with
  push_summary-IsListed key objects h k = elim (Option-cases (get key b.objects)) [
    | inl e ↦ rw e k
    | inr (entry, e) ↦
        let (prefixed, behind) = turn_at-shown key (strip_prefix key prefix) h in
        rw e (
          All-append IsListed objects (summary key entry ∷ []) k
            (((entry, e, refl), prefixed, behind), tt))
  ]

  module _ (m : ℕ) where
    -- A listing that goes on, and one that ended.
    abbrev IsOpen : Listing → Type 0
    IsOpen l = (l.has_more ≡ false) × (length l.objects ≤ m) × All IsListed l.objects

    abbrev pub IsPage : List ObjectSummary → Bool → Type 0
    IsPage objects truncated =
        (length objects ≤ suc m)
        × ((truncated ≡ true) ↔ (length objects ≡ suc m))
        × All IsListed objects

    length-push_summary :
        (key : String) (entry : Option InMemoryObject) (objects : List ObjectSummary)
        → length (push_summary key entry objects) ≤ suc (length objects)
    length-push_summary key none objects = omega arith
    length-push_summary key (some entry) objects =
        omega (arith, length-append objects (summary key entry ∷ []))

    open-IsPage : (l : Listing) → IsOpen l → IsPage l.objects l.has_more
    open-IsPage l (more, small, all_listed) = (
      omega (arith, small),
      ((λ p. absurd (ground arith)), (λ p. absurd (omega (arith, small, p)))),
      all_listed,
    )

    -- The rest of a loop makes a page of a listing that is open.
    abbrev MakesPage : (Listing → Option Listing) → Type 0
    MakesPage again =
        (l end : Listing) → IsOpen l → again l ≡ some end → IsPage end.objects end.has_more

    end-IsPage :
        (l end : Listing)
        → some l ≡ some end
        → IsPage l.objects l.has_more
        → IsPage end.objects end.has_more
    end-IsPage l end q h = moved (ap (or_else l) q) h
      where
        or_else : Listing → Option Listing → Listing
        or_else d none = d
        or_else d (some x) = x

        moved : {x y : Listing} → x ≡ y → IsPage x.objects x.has_more → IsPage y.objects y.has_more
        moved p k = rw (← p) k

    list_turn-MakesPage :
        (again : Listing → Option Listing) (key : String) (turn : Turn)
        → MakesPage again
        → turn_of prefix delimiter skip_key key ≡ turn
        → MakesPage (λ l. list_turn b prefix delimiter skip_key (suc m) again key l turn)
    list_turn-MakesPage again key skipped h e l end going q = h l end going q
    list_turn-MakesPage again key (grouped p) h e l end (more, small, all_listed) q =
        h _ end (more, small, all_listed) q
    list_turn-MakesPage again key broken h e l end going q = absurd (ground arith)
    list_turn-MakesPage again key shown h e l end (more, small, all_listed) q =
        let next : Listing = show key (get key b.objects) l in
        let pushed = push_summary-IsListed key l.objects e all_listed in
        let longer = length-push_summary key (get key b.objects) l.objects in
        elim (Bool-cases (leb (suc m) (length next.objects))) [
          | inl full ↦
              end-IsPage (record next { has_more = true }) end (rw full at q)
                (
                  omega (arith, longer, small),
                  ((λ p. ground (arith, longer, small, full)), (λ p. refl)),
                  pushed,
                )
          | inr room ↦ h next end (more, ground (arith, room), pushed) (rw room at q)
        ]

    list_loop-MakesPage :
        (all_keys : List String)
        → MakesPage (list_loop b prefix delimiter skip_key (suc m) all_keys)
    unfolding list_loop
    list_loop-MakesPage [] l end going q = end-IsPage l end q (open-IsPage l going)
    list_loop-MakesPage (key ∷ all_keys) l end going q =
        list_turn-MakesPage (list_loop b prefix delimiter skip_key (suc m) all_keys) key
          (turn_of prefix delimiter skip_key key) (list_loop-MakesPage all_keys) refl l end going q

-- A listing of a bucket that exists, with a positive limit and a delimiter that is not empty, if
-- any, answers at most as many objects as the limit says; it is marked as truncated exactly when
-- they are as many; and each is an object of the bucket with the ETag, size and time that it has
-- there, its key starts with the prefix and comes after the key of the token.
pub list_objects-IsPage :
    (base64 : Base64) (bucket : String) (prefix delimiter token : Option String) (m : ℕ)
    (s : EphemeralStorage) (b : InMemoryBucket)
    → get bucket s.buckets ≡ some b
    → delimiter ≢ some ""
    → (result : ListObjectsResult) × (list_objects base64 bucket prefix delimiter token
          (pos (suc m))
          s
        ≡ ok result)
      × IsPage b
          (or_empty base64 prefix)
          delimiter
          (bind_option token base64.decode)
          m
          result.objects
          result.is_truncated
unfolding list_objects
list_objects-IsPage base64 bucket prefix delimiter token m s b found cuts =
    let skip_key : Option String = bind_option token base64.decode in
    let start : String = or_empty base64 prefix in
    let run : Option Listing =
      list_loop b start delimiter skip_key (suc m) (sort_keys (keys b.objects))
        (empty_listing base64) in
    elim (Option-cases run) [
      | inl e ↦ absurd (
          list_loop-returns b start delimiter skip_key (suc m) cuts (sort_keys (keys b.objects))
            (empty_listing base64) e)
      | inr (l, e) ↦
          let (small, full, all_listed) =
            list_loop-MakesPage b start delimiter skip_key m (sort_keys (keys b.objects))
              (empty_listing base64) l (refl, omega arith, tt) e in
          (
            answer_of base64 l,
            rw (found, e) refl,
            (
              omega (arith, length-sort_objects l.objects, small),
              (
                (λ p. omega (arith, length-sort_objects l.objects, full.0 p)),
                (λ p. full.1 (omega (arith, length-sort_objects l.objects, p))),
              ),
              sort_objects-All (IsListed b start delimiter skip_key) l.objects all_listed,
            ),
          )
    ]
