-- ===== src/Adapter/Handlers/Laws.antt =====
-- On the listings of `_list` in adapter.py.
use meridian_ociadapter.Prelude.{
  ℕ, ◌≤◌, ◌<◌, ◌≡◌, refl, Bool, true, false, not, ◌==◌, ==→eq, List, [], ◌∷◌, ◌++◌, String, Option,
  none, some, starts_with, All, All-append, length, length-append, arith, if◌then◌else◌,
}
use meridian_ociadapter.Effect.{pure, M}
use meridian_ociadapter.Effect.Rules.{
  Ensures, Ensures-pure, Ensures-bind, Ensures-then, Ensures-lifted, Ensures-if,
}
use meridian_ociadapter.ObjectCommon.{ObjectMetadata}
use meridian_ociadapter.Transport.Interface.{IsVerifying}
use meridian_ociadapter.Adapter.{OciDistributionAdapter, Operation}
use meridian_ociadapter.Adapter.Resolve.{ResolvedObject}
use meridian_ociadapter.Adapter.Resolve.Laws.{IsVerified, stored_from_manifest-Ensures}
use meridian_ociadapter.Effect.{ok}
use meridian_ociadapter.Adapter.Handlers.{
  Listing, Scan, is_version, scan_version, scan_tags, with_item, list_objects,
}

below : (a b : ℕ) → (a == b) ≡ false → a ≤ b → a < b
below a b h l = ground arith

module _ {W : Type 0} (self : OciDistributionAdapter W) where
  -- An item of a listing: metadata that was verified from its manifest, of an id with the prefix.
  pub record IsItem (prefix : String) (m : ObjectMetadata) : Type 0 where
    pub resolved : ResolvedObject
    pub verified : IsVerified self resolved
    pub metadata : resolved.stored.metadata ≡ m
    pub prefixed : starts_with m.object_ref.object_id prefix ≡ true

  -- A page is full where the scan stopped early, and never more than full.
  pub record IsPage (prefix : String) (limit : ℕ) (s : Scan) : Type 0 where
    pub items : All (IsItem prefix) s.items
    pub bound : length s.items ≤ limit
    pub full : s.stopped_early ≡ true → length s.items ≡ limit

  module _
      (keeps : IsVerifying self.hashing self.codec self.binding.max_manifest_bytes self.transport)
      (prefix : String) (limit : ℕ) where
    found_items :
        (b : Bool) (items : List ObjectMetadata) (m : ObjectMetadata)
        → (b ≡ true → IsItem prefix m)
        → All (IsItem prefix) items
        → length items < limit
        → All (IsItem prefix) (if b then items ++ m ∷ [] else items)
          × (length (if b then items ++ m ∷ [] else items) ≤ limit)
    found_items true items m k h l = (
      All-append (IsItem prefix) items (m ∷ []) h (k refl, tt),
      omega (arith, length-append {0} items (m ∷ [])),
    )
    found_items false items m k h l = (h, omega (arith, l))

    with_item-Items :
        (items : List ObjectMetadata) (r : ResolvedObject)
        → IsVerified self r
        → All (IsItem prefix) items
        → length items < limit
        → All (IsItem prefix) (with_item self prefix limit items r.stored.metadata)
          × (length (with_item self prefix limit items r.stored.metadata) ≤ limit)
    with_item-Items items r v h l =
        found_items _ items r.stored.metadata
          (λ e. record { resolved = r; verified = v; metadata = refl; prefixed = e }) h l

    scan_version-Ensures :
        (tag : String) (items : List ObjectMetadata) (next : List ObjectMetadata → M W Scan)
        → All (IsItem prefix) items
        → length items < limit
        → ((found : List ObjectMetadata)
            → All (IsItem prefix) found
            → length found < limit
            → Ensures (next found) (IsPage prefix limit))
        → Ensures (scan_version self prefix limit tag items next) (IsPage prefix limit)
    unfolding scan_version
    scan_version-Ensures tag items next h l k = Ensures-then _ _ λ document.
        Ensures-bind _ _ _ (stored_from_manifest-Ensures self keeps document) λ r (same, v).
          let (all, bound) = with_item-Items items r v h l in
          let found = with_item self prefix limit items r.stored.metadata in
          Ensures-if (length found == limit)
            (pure (record { items = found; scanned = some tag; stopped_early = true })) (next found)
            (λ e. Ensures-pure _ (record { items = all; bound = bound; full = λ _. ==→eq _ _ e }))
            λ e. k found all (below _ _ e bound)

    scan_tags-Ensures :
        (tags : List String) (items : List ObjectMetadata) (scanned : Option String)
        → All (IsItem prefix) items
        → length items < limit
        → Ensures (scan_tags self prefix limit tags items scanned) (IsPage prefix limit)
    unfolding scan_tags
    scan_tags-Ensures [] items scanned h l =
        Ensures-pure _ (record { items = h; bound = omega (arith, l); full = λ e. cc })
    scan_tags-Ensures (tag ∷ tags) items scanned h l =
        Ensures-if (not (is_version self prefix limit tag))
          (scan_tags self prefix limit tags items (some tag))
          (scan_version self prefix limit tag items
            (λ found. scan_tags self prefix limit tags found (some tag)))
          (λ _. scan_tags-Ensures tags items (some tag) h l)
          λ _.
            scan_version-Ensures tag items _ h l (λ found. scan_tags-Ensures tags found (some tag))

  pub list_objects-Ensures :
      IsVerifying self.hashing self.codec self.binding.max_manifest_bytes self.transport
      → (operation : Operation) → 0 < operation.input.limit
      → Ensures (list_objects self operation) (λ l.
        All (IsItem operation.input.prefix) l.items × (length l.items ≤ operation.input.limit))
  unfolding list_objects
  list_objects-Ensures keeps operation h = Ensures-lifted _ _ λ last _. Ensures-then _ _ λ page.
      Ensures-bind _ _ _
        (scan_tags-Ensures keeps operation.input.prefix operation.input.limit page.tags [] none tt
          h)
        λ s p. Ensures-pure _ (p.items, p.bound)

  -- Whenever a listing answers, over a transport that keeps the client's promises and with a limit of at
  -- least 1, each item is the metadata of an object that was verified from its manifest, with an id
  -- that starts with the prefix asked for, and the items are at most as many as the limit.
  pub list_objects-Items :
      IsVerifying self.hashing self.codec self.binding.max_manifest_bytes self.transport
      → (operation : Operation) (w : W) (l : Listing) → 0 < operation.input.limit
      → (list_objects self operation w).0 ≡ ok l
      → All (IsItem operation.input.prefix) l.items × (length l.items ≤ operation.input.limit)
  list_objects-Items keeps operation w l h e = (list_objects-Ensures keeps operation h).at w l e
