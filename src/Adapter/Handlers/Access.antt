-- ===== src/Adapter/Handlers/Access.antt =====
-- On the handlers of adapter.py that address one object.
use meridian_ociadapter.Prelude.{
  ℕ, ◌≤◌, ◌≡◌, refl, sym, ap, ◌∙◌, Bool, true, false, not, String, Option, none, some, not-ltb→le,
}
use meridian_ociadapter.Effect.{Error, ok, pure, lift, raise_if, object_not_found}
use meridian_ociadapter.Effect.Rules.{
  Ensures, Ensures-pure, Ensures-bind, Ensures-lifted, Ensures-guard, bind-eq-ok, ok-injective,
}
use meridian_ociadapter.Json.{Json, Fields, bool, obj, field, end, as_obj}
use meridian_ociadapter.ObjectCommon.{
  ObjectReference, PayloadReference, SelectedRange, BlobSource, Datetime,
}
use meridian_ociadapter.Retention.{require_delete_permitted}
use meridian_ociadapter.Transport.Interface.{IsVerifying}
use meridian_ociadapter.Adapter.{OciDistributionAdapter, Operation, reference, now}
use meridian_ociadapter.Adapter.Resolve.{ResolvedObject, stored_for_reference}
use meridian_ociadapter.Adapter.Resolve.Laws.{IsResolved, stored_for_reference-Ensures}
use meridian_ociadapter.Adapter.Handlers.{get_object, range_in, read_range, delete_object}

module _ {W : Type 0} (self : OciDistributionAdapter W) where
  -- The object that an operation addresses: the one that its reference resolves to.
  pub record IsAddressed (operation : Operation) (require_digest : Bool) (r : ResolvedObject)
      : Type 0 where
    pub asked : ObjectReference
    pub decoded : reference self operation.input require_digest ≡ ok asked
    pub resolved : IsResolved self asked r

  -- A payload that was registered over the object's blob, or a range of it.
  abbrev Registered : BlobSource → Option ℕ → Option String → PayloadReference → Type 0
  Registered source size digest p =
      (w : W) × ((self.payloads.register source size digest w).0 ≡ ok p)

  pub record IsGet (operation : Operation) (answer : Json) : Type 0 where
    pub object : ResolvedObject
    pub addressed : IsAddressed operation false object
    pub payload : PayloadReference
    pub registered :
        Registered
          (record { blob_digest = object.payload.digest; blob_range = none })
          (some object.payload.size)
          (some object.payload.digest)
          payload
    pub answered :
        answer
        ≡ obj (
            field "metadata"
              (self.common.metadata_to_dict object.stored.metadata)
              (field "payload" (self.common.payload_to_dict payload) end))

  pub record IsRange (operation : Operation) (answer : Json) : Type 0 where
    pub object : ResolvedObject
    pub addressed : IsAddressed operation false object
    pub raw : Fields
    pub asked_range : as_obj (some operation.input.range) ≡ some raw
    pub range : Fields
    pub read : self.common.range_from_mapping raw ≡ ok range
    pub selected : SelectedRange
    pub selects : self.common.range_resolve range object.payload.size ≡ ok selected
    pub bound : selected.length ≤ self.binding.max_range_bytes
    pub payload : PayloadReference
    pub registered :
        Registered
          (record {
            blob_digest = object.payload.digest;
            blob_range = some (selected.start, selected.end);
          })
          (some selected.length)
          none
          payload
    pub answered :
        answer
        ≡ obj (
            field "metadata" (self.common.metadata_to_dict object.stored.metadata) (
              field "payload"
                (self.common.payload_to_dict payload)
                (field "range" (self.common.range_to_dict selected) end)))

  -- The world after the object was resolved, and the one after the clock was read then.
  abbrev resolved_world : ObjectReference → W → W
  resolved_world asked w = (stored_for_reference self asked w).1

  abbrev timed_world : ObjectReference → W → W
  timed_world asked w = (now self (resolved_world asked w)).1

  -- The time is what the clock tells once the object is resolved, and the deletion is requested next.
  pub record IsDelete (operation : Operation) (w : W) (answer : Json) : Type 0 where
    pub asked : ObjectReference
    pub decoded : reference self operation.input true ≡ ok asked
    pub object : ResolvedObject
    pub found : (stored_for_reference self asked w).0 ≡ ok object
    pub resolved : IsResolved self asked object
    pub time : Datetime
    pub told : (now self (resolved_world asked w)).0 ≡ ok time
    pub permitted : require_delete_permitted self.common object.stored.retention time ≡ ok tt
    pub requested :
        (self.transport.delete_manifest object.manifest.digest (timed_world asked w)).0 ≡ ok true
    pub answered : answer ≡ obj (field "deleted" (bool true) end)

  module _
      (keeps : IsVerifying self.hashing self.codec self.binding.max_manifest_bytes
        self.transport) where
    pub get_object-Ensures :
        (operation : Operation) → Ensures (get_object self operation) (IsGet operation)
    unfolding get_object
    get_object-Ensures operation = Ensures-lifted _ _ λ asked decoded.
        Ensures-bind _ _ _ (stored_for_reference-Ensures self keeps asked) λ r resolved.
          Ensures-bind _ _
            (Registered (record { blob_digest = r.payload.digest; blob_range = none })
              (some r.payload.size) (some r.payload.digest))
            (record { at = λ w p e. (w, e) })
            λ p registered. Ensures-pure _ (record {
              object = r;
              addressed = record { asked = asked; decoded = decoded; resolved = resolved };
              payload = p;
              registered = registered;
              answered = refl;
            })

    range_in-ok :
        (o : Option Fields) (range : Fields)
        → range_in self o ≡ ok range
        → (raw : Fields) × (o ≡ some raw) × (self.common.range_from_mapping raw ≡ ok range)
    unfolding range_in
    range_in-ok none range e = cc
    range_in-ok (some raw) range e = (raw, refl, e)

    pub read_range-Ensures :
        (operation : Operation) → Ensures (read_range self operation) (IsRange operation)
    unfolding read_range
    read_range-Ensures operation = Ensures-lifted _ _ λ asked decoded.
        Ensures-lifted _ _ λ range decoded_range.
          let (raw, asked_range, read) =
            range_in-ok (as_obj (some operation.input.range)) range decoded_range in
          Ensures-bind _ _ _ (stored_for_reference-Ensures self keeps asked) λ r resolved.
            Ensures-lifted _ _ λ selected selects. Ensures-guard _ _ _ λ bound.
              Ensures-bind _ _
                (Registered
                  (record {
                    blob_digest = r.payload.digest;
                    blob_range = some (selected.start, selected.end);
                  })
                  (some selected.length) none)
                (record { at = λ w p e. (w, e) })
                λ p registered. Ensures-pure _ (record {
                  object = r;
                  addressed = record { asked = asked; decoded = decoded; resolved = resolved };
                  raw = raw;
                  asked_range = asked_range;
                  range = range;
                  read = read;
                  selected = selected;
                  selects = selects;
                  bound = not-ltb→le _ _ bound;
                  payload = p;
                  registered = registered;
                  answered = refl;
                })

    not_refused : (b : Bool) (w : W) (e : Error) → (raise_if (not b) e w).0 ≡ ok tt → b ≡ true
    unfolding raise_if
    not_refused true w e h = refl
    not_refused false w e h = cc

    -- Whenever a delete answers, over a transport that keeps the client's promises, the operation's
    -- reference resolved to an object whose retention permits the deletion at the time that the clock
    -- told after that, and the registry reported the deletion of that object's manifest, which was
    -- requested next.
    pub delete_object-IsDelete :
        (operation : Operation) (w : W) (answer : Json)
        → (delete_object self operation w).0 ≡ ok answer
        → IsDelete operation w answer
    unfolding delete_object lift pure
    delete_object-IsDelete operation w answer e =
        let (asked, decoded, e1) = bind-eq-ok (lift (reference self operation.input true)) _ w e in
        let (object, found, e2) = bind-eq-ok (stored_for_reference self asked) _ w e1 in
        let w2 = resolved_world asked w in
        let (time, told, e3) = bind-eq-ok (now self) _ w2 e2 in
        let w3 = timed_world asked w in
        let (_, permitted, e4) =
          bind-eq-ok (lift (require_delete_permitted self.common object.stored.retention time)) _ w3
            e3 in
        let (deleted, requested, e5) =
          bind-eq-ok (self.transport.delete_manifest object.manifest.digest) _ w3 e4 in
        let w4 = (self.transport.delete_manifest object.manifest.digest w3).1 in
        let (_, kept, e6) = bind-eq-ok (raise_if (not deleted) object_not_found) _ w4 e5 in
        record {
          asked = asked;
          decoded = decoded;
          object = object;
          found = found;
          resolved = (stored_for_reference-Ensures self keeps asked).at w object found;
          time = time;
          told = told;
          permitted = permitted;
          requested = requested ∙ ap ok (not_refused deleted w4 object_not_found kept);
          answered = sym (ok-injective e6);
        }
