-- ===== src/Bridge/Parse.antt =====
-- runtime/bridge/src/wire.rs: `parse_event_stream`. The outer `Option` of a result is `none` where the
-- source panics.
pub mod Events
use kaysentinel.Base.{Option, none, some, List, [], ◌∷◌, Result, ok, err, if◌then◌else◌}
use kaysentinel.Base.Classes.{Bytes, ◌==◌, bytes_eq}
use kaysentinel.Base.BTreeMap.{map_option}
use kaysentinel.Hash.{codes}
use kaysentinel.Bridge.Wire.{
  GoEvent, BlockStartData, TransactionStartData, FrameEnterData, FrameExitData, TransactionEndData,
  BalanceMutationData, NonceMutationData, CodeMutationData, StorageMutationData, AccountCreatedData,
  SelfDestructData,
}

-- `data` is the JSON value of the event, of serde's type.
pub record TaggedEvent (Value : Type 0) : Type 0 where
  pub kind : Bytes
  pub payload : Value

-- What the crates serde and serde_json do: `from_str::<Envelope>`, which reads the array of events, and
-- `from_value` at each type of event data. `E` is the text of an error. Reading event data panics
-- where decoding one of its hex texts does.
pub record Serde (Value E : Type 0) : Type 0 where
  pub read_envelope : Bytes → Result E (List (TaggedEvent Value))
  pub block_start : Value → Option (Result E BlockStartData)
  pub transaction_start : Value → Option (Result E TransactionStartData)
  pub frame_enter : Value → Option (Result E FrameEnterData)
  pub frame_exit : Value → Option (Result E FrameExitData)
  pub transaction_end : Value → Option (Result E TransactionEndData)
  pub balance_mutation : Value → Option (Result E BalanceMutationData)
  pub nonce_mutation : Value → Option (Result E NonceMutationData)
  pub code_mutation : Value → Option (Result E CodeMutationData)
  pub storage_mutation : Value → Option (Result E StorageMutationData)
  pub account_created : Value → Option (Result E AccountCreatedData)
  pub self_destruct : Value → Option (Result E SelfDestructData)

pub data ParseError (E : Type 0) : Type 0 where
  json_error : E → ParseError E
  unknown_event_kind : Bytes → ParseError E

-- `Ok(GoEvent::Kind(parse(tagged.data)?))`
unfoldable pub parse_as :
    {E T : Type 0} → (T → GoEvent) → Option (Result E T) → Option (Result (ParseError E) GoEvent)
parse_as event none = none
parse_as event (some (err e)) = some (err (json_error e))
parse_as event (some (ok t)) = some (ok (event t))

module _ {Value E : Type 0} (serde : Serde Value E) where
  -- The closure of `parse_event_stream`.
  unfoldable pub parse_tagged : TaggedEvent Value → Option (Result (ParseError E) GoEvent)
  unfolding parse_as
  parse_tagged tagged =
      if tagged.kind == codes "BlockStart"
      then parse_as GoEvent.block_start (serde.block_start tagged.payload)
      else if tagged.kind == codes "TransactionStart"
      then parse_as GoEvent.transaction_start (serde.transaction_start tagged.payload)
      else if tagged.kind == codes "FrameEnter"
      then parse_as GoEvent.frame_enter (serde.frame_enter tagged.payload)
      else if tagged.kind == codes "FrameExit"
      then parse_as GoEvent.frame_exit (serde.frame_exit tagged.payload)
      else if tagged.kind == codes "TransactionEnd"
      then parse_as GoEvent.transaction_end (serde.transaction_end tagged.payload)
      else if tagged.kind == codes "BlockCommit"
      then some (ok GoEvent.block_commit)
      else if tagged.kind == codes "BalanceMutation"
      then parse_as GoEvent.balance_mutation (serde.balance_mutation tagged.payload)
      else if tagged.kind == codes "NonceMutation"
      then parse_as GoEvent.nonce_mutation (serde.nonce_mutation tagged.payload)
      else if tagged.kind == codes "CodeMutation"
      then parse_as GoEvent.code_mutation (serde.code_mutation tagged.payload)
      else if tagged.kind == codes "StorageMutation"
      then parse_as GoEvent.storage_mutation (serde.storage_mutation tagged.payload)
      else if tagged.kind == codes "AccountCreated"
      then parse_as GoEvent.account_created (serde.account_created tagged.payload)
      else if tagged.kind == codes "SelfDestruct"
      then parse_as GoEvent.self_destruct (serde.self_destruct tagged.payload)
      else some (err (unknown_event_kind tagged.kind))

  -- `.map(..).collect::<Result<Vec<_>, _>>()`: the first error ends it.
  unfoldable pub parse_all :
      List (TaggedEvent Value) → Option (Result (ParseError E) (List GoEvent))
  parse_all [] = some (ok [])
  parse_all (tagged ∷ events) =
      let rest = parse_all events in
      elim (parse_tagged tagged) [
        | none ↦ none
        | some (err e) ↦ some (err e)
        | some (ok event) ↦
            map_option (λ r. elim r [ err e ↦ err e | ok later ↦ ok (event ∷ later) ]) rest
      ]

  unfoldable pub parse_event_stream : Bytes → Option (Result (ParseError E) (List GoEvent))
  unfolding parse_all parse_tagged
  parse_event_stream json = elim (serde.read_envelope json) [
    | err e ↦ some (err (json_error e))
    | ok events ↦ parse_all events
  ]
