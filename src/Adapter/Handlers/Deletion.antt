-- ===== src/Adapter/Handlers/Deletion.antt =====
-- On what `_delete` of adapter.py asks the registry to delete, on every path.
use meridian_ociadapter.Prelude.{◌≡◌, refl, true, [], ◌∷◌, String, ◌⊎◌, inr}
use meridian_ociadapter.Effect.{ok, lift, ◌>>=◌}
use meridian_ociadapter.Effect.Locals.{on_world, assign}
use meridian_ociadapter.ObjectCommon.{ObjectReference, Datetime}
use meridian_ociadapter.Transport.Models.{ManifestDocument}
use meridian_ociadapter.Transport.Interface.{IsVerifying}
use meridian_ociadapter.Retention.{require_delete_permitted}
use meridian_ociadapter.Adapter.{OciDistributionAdapter, Operation, reference, now}
use meridian_ociadapter.Adapter.Resolve.{
  ResolvedObject, stored_for_reference, stored_from_manifest, stored_from_descriptors,
}
use meridian_ociadapter.Adapter.Resolve.Laws.{IsResolved, stored_for_reference-Ensures}
use meridian_ociadapter.Adapter.Handlers.{delete_object}
use meridian_ociadapter.Adapter.Handlers.Recording.{
  recording_transport, recording, Log, Quiet, Asks, Ensures-on_world, Quiet-on_world, Quiet-lift,
  Quiet-pure, Quiet-raise_if, Quiet-bind, Asks-bind, Asks-then,
}

module _ {W : Type 0} (self : OciDistributionAdapter W) where
  deletes-Asks :
      (P : String → Type 0) (d : String)
      → P d
      → (s : W × Log) → Asks P ((recording self).transport.delete_manifest d) s
  unfolding ◌>>=◌ assign on_world
  deletes-Asks P d p s = inr (d, p, refl)

  stored_from_manifest-Quiet :
      (document : ManifestDocument) → Quiet (stored_from_manifest (recording self) document)
  unfolding stored_from_manifest stored_from_descriptors
  stored_from_manifest-Quiet document = Quiet-bind _ _ (Quiet-lift _) λ descriptors.
      Quiet-bind _ _ (Quiet-on_world _) λ config.
        Quiet-bind _ _ (Quiet-lift _)
          λ stored. Quiet-bind _ _ (Quiet-raise_if _ _) λ _. Quiet-pure _

  stored_for_reference-Quiet :
      (r : ObjectReference) → Quiet (stored_for_reference (recording self) r)
  unfolding stored_for_reference
  stored_for_reference-Quiet r = Quiet-bind _ _ (Quiet-lift _) λ tag.
      Quiet-bind _ _ (Quiet-on_world _) λ document.
        Quiet-bind _ _ (stored_from_manifest-Quiet document) λ resolved.
          Quiet-bind _ _ (Quiet-raise_if _ _) λ _. Quiet-bind _ _ (Quiet-raise_if _ _) λ _.
            Quiet-bind _ _ (Quiet-raise_if _ _) λ _. Quiet-bind _ _ (Quiet-lift _) λ anchor.
              Quiet-bind _ _ (Quiet-on_world _) λ _.
                Quiet-bind _ _ (Quiet-lift _)
                  λ _. Quiet-bind _ _ (Quiet-raise_if _ _) λ _. Quiet-pure _

  now-Quiet : Quiet (now (recording self))
  unfolding now
  now-Quiet =
      Quiet-bind _ _ (Quiet-on_world _)
        λ value. Quiet-bind _ _ (Quiet-raise_if _ _) λ _. Quiet-pure _

  -- The adapter's state once the object is resolved.
  abbrev resolved_state : ObjectReference → W × Log → W × Log
  resolved_state asked s = (stored_for_reference (recording self) asked s).1

  -- A manifest that may be deleted: that of the object that the operation's reference resolves to,
  -- where the retention permits the deletion at the time that the clock tells then.
  pub record IsDeletable (operation : Operation) (w : W) (d : String) : Type 0 where
    pub asked : ObjectReference
    pub decoded : reference self operation.input true ≡ ok asked
    pub object : ResolvedObject
    pub found : (stored_for_reference (recording self) asked (w, [])).0 ≡ ok object
    pub resolved : IsResolved (recording self) asked object
    pub time : Datetime
    pub told : (now (recording self) (resolved_state asked (w, []))).0 ≡ ok time
    pub permitted : require_delete_permitted self.common object.stored.retention time ≡ ok tt
    pub manifest : d ≡ object.manifest.digest

  module _
      (keeps : IsVerifying self.hashing self.codec self.binding.max_manifest_bytes
        self.transport) where
    recording_keeps :
        IsVerifying self.hashing self.codec self.binding.max_manifest_bytes
          (recording_transport self.transport)
    recording_keeps = record {
      blob = λ d n. Ensures-on_world (keeps.blob d n);
      manifest = λ r. Ensures-on_world (keeps.manifest r);
      started = Ensures-on_world keeps.started;
      chunk = λ u c. Ensures-on_world (keeps.chunk u c);
      stored = λ b m. Ensures-on_world (keeps.stored b m);
      published = λ r b. Ensures-on_world (keeps.published r b);
    }

    -- However a delete ends, over a transport that keeps the client's promises, it has asked the registry
    -- to delete nothing, or one manifest: that of the object that the operation's reference resolved
    -- to, whose retention permits the deletion at the time that the clock told after that.
    pub delete_object-IsDeletable :
        (operation : Operation) (w : W)
        → ((delete_object (recording self) operation (w, [])).1.1 ≡ [])
          ⊎ ((d : String) × IsDeletable operation w d
              × ((delete_object (recording self) operation (w, [])).1.1 ≡ d ∷ []))
    unfolding delete_object lift reference
    delete_object-IsDeletable operation w =
        Asks-bind (lift (reference self operation.input true)) _ (w, []) (Quiet-lift _)
          λ asked decoded. Asks-bind _ _ _ (stored_for_reference-Quiet asked) λ r found.
            Asks-bind _ _ _ now-Quiet λ time told. Asks-bind _ _ _ (Quiet-lift _) λ _ permitted.
              Asks-then _ _ _
                (deletes-Asks (IsDeletable operation w) r.manifest.digest
                  (record {
                    asked = asked;
                    decoded = decoded;
                    object = r;
                    found = found;
                    resolved =
                        (stored_for_reference-Ensures (recording self) recording_keeps asked).at
                          (w, []) r found;
                    time = time;
                    told = told;
                    permitted = permitted;
                    manifest = refl;
                  })
                  _)
                λ deleted. Quiet-bind _ _ (Quiet-raise_if _ _) λ _. Quiet-pure _
