-- ===== src/EventHandlers/Positional.antt =====
-- An event whose payload is an array, through the decoder and the handlers:
-- indexer/services/xdr-decoder.service.ts and event-handler.service.ts.
use stellar_insured_backend.XdrDecoder.Members.{Record, number_member, string_member}
use stellar_insured_backend.EventHandlers.{update_many_by_contract_id}
use stellar_insured_backend.Prelude.Int.{pos}
use stellar_insured_backend.Database.{ok}
use stellar_insured_backend.Prelude.{List, [], ap, refl, some, sym, true, ◌==◌, ◌∙◌, ◌∷◌, ◌≡◌}
use stellar_insured_backend.XdrDecoder.{
  Items, Text, Value, array, codes, field, num, number, str, string, text_of,
}
use stellar_insured_backend.XdrDecoder.Decode.{
  ParsedContractEvent, SorobanEvent, Thrown, decode, decoders, gave, parse_event, parse_topic,
  parsed_as, read,
}
use stellar_insured_backend.XdrDecoder.EventTypes.{ContractEventType, project_completed, symbol_of}
use stellar_insured_backend.XdrDecoder.ProjectEvents.{decode_project_status}
use stellar_insured_backend.EventHandlers.Store.{HandlerClient, ProjectStatus, World}
use stellar_insured_backend.EventHandlers.Dispatch.{
  get_handler, handle, handle_project_status, process_event, validate,
}

abbrev nothing_known : Record
nothing_known =
    (codes "projectId", number (pos 0)) ∷ (codes "status", string (codes "unknown")) ∷ []

module _ {ScVal : Type 0} (from_xdr : Text → Thrown ScVal)
    (sc_val_to_native : ScVal → Thrown Value) where
  decode-array :
      (raw : Text) (s : ScVal) (xs : Items)
      → from_xdr raw ≡ gave s
      → sc_val_to_native s ≡ gave (array xs)
      → (decode from_xdr sc_val_to_native raw project_completed).fields ≡ nothing_known
  unfolding decode decoders decode_project_status number_member string_member num str field
  decode-array raw s xs e f = rw (e, f, decode) refl

  parse_event-project_completed :
      (event : SorobanEvent) (topics : List Text) (p : ParsedContractEvent)
      → event.topic ≡ symbol_of project_completed ∷ topics
      → parse_event from_xdr sc_val_to_native event ≡ some p
      → parsed_as from_xdr sc_val_to_native event project_completed ≡ p
  unfolding parse_event
  parse_event-project_completed event topics p e parsed =
      let known : parse_event from_xdr sc_val_to_native event
          ≡ some (parsed_as from_xdr sc_val_to_native event project_completed) =
        rw (e, parse_topic) refl in
      cc

process_event-nothing_known :
    (h : HandlerClient) (p : ParsedContractEvent) (w : World h)
    → p.event_type ≡ project_completed
    → p.fields ≡ nothing_known
    → process_event h p w ≡ (
      ok true,
      record w {
        projects =
            h.projects.update_many w.projects
              (λ q. q.contract_id == h.name_of (codes "0"))
              (λ q. record q { status = ProjectStatus.completed });
      },
    )
unfolding process_event get_handler validate handle handle_project_status update_many_by_contract_id
    text_of
process_event-nothing_known h p w e f = rw (e, f) refl

module _ (h : HandlerClient) {ScVal : Type 0} (from_xdr : Text → Thrown ScVal)
    (sc_val_to_native : ScVal → Thrown Value) where
  -- An event of a completed project whose payload is an array is parsed and handled with success, and
  -- completes the live projects whose contract id is "0", whatever the array holds.
  pub array_completes_zero :
      (event : SorobanEvent) (s : ScVal) (xs : Items) (topics : List Text) (p : ParsedContractEvent)
      (w : World h)
      → event.topic ≡ symbol_of ContractEventType.project_completed ∷ topics
      → from_xdr event.value ≡ gave s
      → sc_val_to_native s ≡ gave (array xs)
      → parse_event from_xdr sc_val_to_native event ≡ some p
      → process_event h p w ≡ (
        ok true,
        record w {
          projects =
              h.projects.update_many w.projects
                (λ q. q.contract_id == h.name_of (codes "0"))
                (λ q. record q { status = ProjectStatus.completed });
        },
      )
  array_completes_zero event s xs topics p w e read gives parsed =
      let same = parse_event-project_completed from_xdr sc_val_to_native event topics p e parsed in
      process_event-nothing_known h p w (sym (ap (λ (q : ParsedContractEvent). q.event_type) same))
        (sym (ap (λ (q : ParsedContractEvent). q.fields) same)
          ∙ decode-array from_xdr sc_val_to_native event.value s xs read gives)
