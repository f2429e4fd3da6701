-- ===== src/XdrDecoder/Parsing.antt =====
-- The outcome of parsing an event: parseEvent of indexer/services/indexer.service.ts.
use stellar_insured_backend.XdrDecoder.{Text, Value, as_object, codes}
use stellar_insured_backend.XdrDecoder.EventTypes.{
  ContractEventType, parse_event_type-symbol_of, symbol_of,
}
use stellar_insured_backend.XdrDecoder.Decode.{
  DecodedEvent, ParsedContractEvent, SorobanEvent, Thrown, decode, decoders, gave, parse_event,
  parse_topic, parsed_as, quarantine, read, threw, truthy,
}
use stellar_insured_backend.XdrDecoder.Printed.{decoder_throws}
use stellar_insured_backend.XdrDecoder.JsonSafe.{AllJson, decoders-AllJson, symbol_of-nonempty}
use stellar_insured_backend.Prelude.{
  Bool, Bool-cases, List, ap, false, inl, inr, refl, some, subst, sym, true-ne-false, ◌++◌, ◌↔◌,
  ◌∙◌, ◌∷◌, ◌≡◌, ◌⊎◌,
}

Thrown-cases : {A : Type 0} (x : Thrown A) → ((s : Text) × (x ≡ threw s)) ⊎ ((a : A) × (x ≡ gave a))
Thrown-cases (threw s) = inl (s, refl)
Thrown-cases (gave a) = inr (a, refl)

abbrev marker : DecodedEvent → Bool
marker d = truthy (read d.fields (codes "_quarantined"))

module _ {ScVal : Type 0} (from_xdr : Text → Thrown ScVal)
    (sc_val_to_native : ScVal → Thrown Value) where
  -- Neither conversion throws on the text, and every value that the decoder of the type turns into a
  -- text can be turned into one.
  abbrev pub Readable : ContractEventType → Text → Type 0
  Readable t raw =
      (s : ScVal) × (v : Value) × (from_xdr raw ≡ gave s)
      × (sc_val_to_native s ≡ gave v)
      × (decoder_throws t (as_object v) ≡ false)

  spoilt :
      (raw : Text) (t : ContractEventType) (reason : Text)
      → decode from_xdr sc_val_to_native raw t ≡ quarantine raw reason
      → (Readable t raw → ⊥)
      → AllJson (decode from_xdr sc_val_to_native raw t).fields
        × ((marker (decode from_xdr sc_val_to_native raw t) ≡ false) ↔ Readable t raw)
  unfolding quarantine
  spoilt raw t reason d unreadable = (
    subst (λ (x : DecodedEvent). AllJson x.fields) (sym d) (tt, (tt, (tt, tt))),
    (λ h. absurd (true-ne-false (sym (ap marker d) ∙ h)), λ r. absurd (unreadable r)),
  )

  decode_lem :
      (raw : Text) (t : ContractEventType)
      → AllJson (decode from_xdr sc_val_to_native raw t).fields
        × ((marker (decode from_xdr sc_val_to_native raw t) ≡ false) ↔ Readable t raw)
  unfolding decode quarantine
  decode_lem raw t = elim (Thrown-cases (from_xdr raw)) [
    | inl (message, e) ↦
        spoilt raw t (codes "invalid_xdr: " ++ message) (rw (e, decode) refl)
          (λ (s, v, p, q, z). cc)
    | inr (s, e) ↦ elim (Thrown-cases (sc_val_to_native s)) [
      | inl (message, f) ↦
          spoilt raw t (codes "undecodable_scval: " ++ message) (rw (e, f, decode) refl)
            (λ (s', v, p, q, z). let same : gave s ≡ gave s' = sym e ∙ p in cc)
      | inr (v, f) ↦ elim (Bool-cases (decoder_throws t (as_object v))) [
        | inl throws ↦
            spoilt raw t
              (codes "shape_mismatch: " ++ codes "Cannot convert object to primitive value")
              (rw (e, f, throws, decode) refl)
              (λ (s', v', p, q, z).
                let same : gave s ≡ gave s' = sym e ∙ p in let same' : gave v ≡ gave v' = cc in cc)
        | inr fine ↦
            let (json, plain) = decoders-AllJson t (as_object v) in
            let d : decode from_xdr sc_val_to_native raw t
                ≡ record { fields = decoders t (as_object v); raw_xdr = raw } =
              rw (e, f, fine, decode) refl in
            (
              subst (λ (x : DecodedEvent). AllJson x.fields) (sym d) json,
              (λ h. (s, v, e, f, fine), λ h. ap marker d ∙ ap truthy plain),
            )
      ]
    ]
  ]

  -- An event whose first topic is the symbol of a type is always parsed, as an event of that type; its
  -- fields hold only texts, numbers and Booleans, and it is quarantined exactly when one of the two
  -- conversions of the SDK throws on its value or the decoder of the type throws, on a value that it
  -- prints and that is, or holds in an array, an object with a member toString.
  pub parse_event_lem :
      (event : SorobanEvent) (t : ContractEventType) (topics : List Text)
      → event.topic ≡ symbol_of t ∷ topics
      → (p : ParsedContractEvent) × (parse_event from_xdr sc_val_to_native event ≡ some p)
        × (p.event_type ≡ t)
        × (p.event_id ≡ event.id)
        × AllJson p.fields
        × ((p.quarantined ≡ false) ↔ Readable t event.value)
  unfolding parse_event
  parse_event_lem event t topics e =
      let (json, readable) = decode_lem event.value t in
      (
        parsed_as from_xdr sc_val_to_native event t,
        rw (e, parse_topic, symbol_of-nonempty t, parse_event_type-symbol_of t) refl,
        refl,
        refl,
        json,
        readable,
      )
