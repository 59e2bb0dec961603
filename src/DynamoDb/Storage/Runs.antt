-- ===== src/DynamoDb/Storage/Runs.antt =====
-- Sequences of writes of ruststack-dynamodb/src/storage.rs against the specification.
use ruststack.Prelude.{◌≡◌, refl, String, Option, List, [], ◌∷◌}
use ruststack.Result.{Result, state, reply}
use ruststack.DynamoDb.Values.{Item, Float}
use ruststack.DynamoDb.Conditions.{ExpressionContext}
use ruststack.DynamoDb.Schema.{DynamoDbError, ReturnValues}
use ruststack.DynamoDb.Storage.{Parsers, DynamoDbStorage}
use ruststack.DynamoDb.Storage.Items.{put_item, delete_item, update_item}
use ruststack.DynamoDb.Storage.View.{View, view, within}
use ruststack.DynamoDb.Storage.Writes.{
  spec_put, spec_delete, spec_update, view-put_item, view-delete_item, view-update_item,
}

-- A call that writes, on the table of the first text.
pub data Write : Type 0 where
  put : ExpressionContext → String → Item → Option String → Write
  delete : ExpressionContext → String → Item → Option String → Write
  update : ExpressionContext → String → Item → String → Option String → ReturnValues → Write

-- the answers of a sequence of calls, and the state that they leave
abbrev pub run {ℓ κ} : {S : Type ℓ} {R : Type κ} → (Write → S → R × S) → List Write → S → List R × S
run f [] s = ([], s)
run f (w ∷ writes) s = let rest = run f writes (state (f w s)) in (reply (f w s) ∷ rest.0, rest.1)

module _ (parsers : Parsers) (float : Float) where
  abbrev pub perform :
      Write → DynamoDbStorage → Result DynamoDbError (Option Item) × DynamoDbStorage
  perform (put ctx name item condition) = put_item parsers float ctx name item condition
  perform (delete ctx name key condition) = delete_item parsers float ctx name key condition
  perform (update ctx name key change condition return_values) =
      update_item parsers float ctx name key change condition return_values

  abbrev pub specified : Write → View → Result DynamoDbError (Option Item) × View
  specified (put ctx name item condition) = within name (spec_put parsers float ctx item condition)
  specified (delete ctx name key condition) =
      within name (spec_delete parsers float ctx key condition)
  specified (update ctx name key change condition return_values) =
      within name (spec_update parsers float ctx key change condition return_values)

  view-perform :
      (w : Write) (s : DynamoDbStorage)
      → (reply (perform w s) ≡ reply (specified w (view s)))
        × (view (state (perform w s)) ≡ state (specified w (view s)))
  view-perform (put ctx name item condition) s =
      view-put_item parsers float ctx name item condition s
  view-perform (delete ctx name key condition) s =
      view-delete_item parsers float ctx name key condition s
  view-perform (update ctx name key change condition return_values) s =
      view-update_item parsers float ctx name key change condition return_values s

  -- Every sequence of puts, deletes and updates, each with its own condition, names and values,
  -- gets the answers of the specification, errors included, and leaves a store whose view is the
  -- one that the specification leaves. The specification sees of a table its key schema and a
  -- function from text keys to items: the indexes, the order of the entries and the other tables
  -- play no part, and a call that fails changes nothing.
  pub view-run :
      (writes : List Write) (s : DynamoDbStorage)
      → ((run perform writes s).0 ≡ (run specified writes (view s)).0)
        × (view (run perform writes s).1 ≡ (run specified writes (view s)).1)
  view-run [] s = (refl, refl)
  view-run (w ∷ writes) s =
      let (answer, after) = view-perform w s in
      let (answers, end) = view-run writes (state (perform w s)) in
      (rw (answer, answers, after) refl, rw (end, after) refl)
