-- ===== src/Cursor/RoundTrip.antt =====
-- Encoding and decoding of the cursors of _naming.py, together.
use mathlib.Core.Path.{subst}
use meridian_ociadapter.Prelude.{
  ℕ, ◌-◌, ◌%◌, ◌≡◌, refl, sym, ap, Bool-cases, and-true, ◌&&◌, ◌⊎◌, inl, inr, true, false, List, [],
  ◌∷◌, ◌++◌, String, Option, none, some, codes, length, arith,
}
use meridian_ociadapter.Effect.{
  Result, ok, err, Error, object_invalid_request, value_error, translate, is_decode_error,
  is_type_or_value_error, bind_result,
}
use meridian_ociadapter.Effect.Rules.{bind_result-eq-ok, translate-eq-ok}
use meridian_ociadapter.Hashing.{Bytes, Hashing}
use meridian_ociadapter.Json.{Json, Codec, ReadsBack, sort_keys}
use meridian_ociadapter.Naming.{tag_matches}
use meridian_ociadapter.Cursor.{
  CursorCodec, cursor_document, split_dot, three_parts, same_bytes, read_last, encode, decode,
  parts, decoded_parts, verified,
}
use meridian_ociadapter.Cursor.Base64.{
  b64, unb64, urlsafe_b64decode, a2b, move, Quad, empty, quad_after, pads_after, pads,
}
use meridian_ociadapter.Cursor.Base64.Laws.{AreBytes, has_no_dot, unb64-b64, b64-no_dot}

split_dot-append :
    (xs ys : List ℕ) → has_no_dot xs ≡ true → split_dot (xs ++ b'.' ∷ ys) ≡ some (xs, ys)
unfolding split_dot
split_dot-append [] ys h = refl
split_dot-append (x ∷ xs) ys h = ground (arith, split_dot-append xs ys)

same_bytes_refl : (xs : Bytes) → same_bytes xs xs ≡ true
unfolding same_bytes
same_bytes_refl [] = refl
same_bytes_refl (x ∷ xs) = ground (arith, same_bytes_refl xs)

pub same_bytes-eq : (xs ys : Bytes) → same_bytes xs ys ≡ true → xs ≡ ys
unfolding same_bytes
same_bytes-eq [] [] h = refl
same_bytes-eq (x ∷ xs) (y ∷ ys) h = ground (arith, same_bytes-eq xs ys)
same_bytes-eq _ _ h = cc

read_last-document :
    (t : String) → tag_matches (codes t) ≡ true → read_last (sort_keys (cursor_document t)) ≡ ok t
unfolding read_last sort_keys
read_last-document t h = rw h refl

read_last-valid : (v : Json) (t : String) → read_last v ≡ ok t → tag_matches (codes t) ≡ true
unfolding read_last
read_last-valid v t h = ground arith

read_last_error : (v : Json) (e : Error) → read_last v ≡ err e → e ≡ object_invalid_request
unfolding read_last
read_last_error v e h = ground arith

error_or : {A : Type 0} → Error → Result A → Error
error_or d (ok a) = d
error_or d (err e) = e

err-injective : {A : Type 0} {d e : Error} → ◌≡◌ {A = Result A} (err d) (err e) → d ≡ e
unfolding error_or
err-injective {d} h = ap (error_or d) h

a2b_error : (q : Quad) (p : ℕ) (cs : List ℕ) (e : Error) → a2b q p cs ≡ err e → e ≡ value_error
unfolding a2b
a2b_error empty p [] e h = ground arith
a2b_error q p [] e h = ground arith
a2b_error empty p (c ∷ cs) e h =
    let m = move empty p c in ground (arith, a2b_error (quad_after m) (pads_after m) cs e)
a2b_error q p (c ∷ cs) e h =
    let m = move q p c in ground (arith, a2b_error (quad_after m) (pads_after m) cs e)

unb64_error : (v : List ℕ) (e : Error) → unb64 v ≡ err e → e ≡ value_error
unfolding unb64 urlsafe_b64decode
unb64_error v e h = ground (arith, a2b_error empty 0 (v ++ pads ((4 - length v % 4) % 4)) e)

module _ (H : Hashing) (J : Codec) (self : CursorCodec) where
  -- A cursor for a valid tag decodes to the tag, where the JSON codec reads back the document and
  -- payload and signature are bytes.
  pub decode-encode :
      (t : String)
      → tag_matches (codes t) ≡ true
      → ReadsBack J (cursor_document t)
      → AreBytes (J.dumps (sort_keys (cursor_document t)))
      → AreBytes (H.hmac_sha256 self.key (J.dumps (sort_keys (cursor_document t))))
      → decode H J self (encode H J self t) ≡ ok t
  unfolding decode encode codes same_bytes
  decode-encode t valid back bytes sig =
      let payload : Bytes = J.dumps (sort_keys (cursor_document t)) in
      let signature = H.hmac_sha256 self.key payload in
      rw
        (
          split_dot-append (codes "v1") (b64 payload ++ b'.' ∷ b64 signature) refl,
          split_dot-append (b64 payload) (b64 signature) (b64-no_dot payload bytes),
          unb64-b64 payload bytes,
          unb64-b64 signature sig,
          same_bytes_refl signature,
          back,
        )
        (read_last-document t valid)

  abbrev loaded : Bytes → Result Json
  loaded payload = translate is_decode_error object_invalid_request (J.loads payload)

  verified_lem :
      (v : List ℕ) (p s : Bytes) (t : String)
      → verified H J self (v, p, s) ≡ ok t
      → (v ≡ codes "v1")
        × (s ≡ H.hmac_sha256 self.key p)
        × (bind_result (loaded p) read_last ≡ ok t)
  verified_lem v p s t h =
      ground (arith, same_bytes-eq v (codes "v1"), same_bytes-eq s (H.hmac_sha256 self.key p))

  accepted :
      (r : Result (List ℕ × Bytes × Bytes)) (t : String)
      → bind_result (translate is_type_or_value_error object_invalid_request r) (verified H J self)
        ≡ ok t
      → (payload : Bytes) × (r ≡ ok (codes "v1", payload, H.hmac_sha256 self.key payload))
        × (bind_result (loaded payload) read_last ≡ ok t)
  accepted (ok (v, p, s)) t h = let (e, d, q) = verified_lem v p s t h in (p, rw (e, d) refl, q)
  accepted (err x) t h = ground arith

  -- What is accepted was signed: a cursor decodes to a tag only if its three parts are the version,
  -- a payload and the payload's signature under the key, and the payload is the JSON of a document
  -- that holds that tag, which is well formed.
  pub decode_authentic :
      (cursor : List ℕ) (t : String)
      → decode H J self cursor ≡ ok t
      → (payload : Bytes) × (parts H J cursor
          ≡ ok (codes "v1", payload, H.hmac_sha256 self.key payload))
        × ((document : Json) × (J.loads payload ≡ ok document) × (read_last document ≡ ok t))
        × (tag_matches (codes t) ≡ true)
  unfolding decode
  decode_authentic cursor t e =
      let (payload, p, q) = accepted (parts H J cursor) t e in
      let (document, l, r) = bind_result-eq-ok (loaded payload) read_last q in
      (
        payload,
        p,
        (document, translate-eq-ok is_decode_error object_invalid_request (J.loads payload) l, r),
        read_last-valid document t r,
      )

  -- What a decoding raises: an invalid request, or what `json.loads` raises for a signed payload
  -- besides decoding errors.
  abbrev pub IsRefusal : Result (List ℕ × Bytes × Bytes) → Error → Type 0
  IsRefusal r e =
      (e ≡ object_invalid_request)
      ⊎ ((payload : Bytes) × (r ≡ ok (codes "v1", payload, H.hmac_sha256 self.key payload))
          × (J.loads payload ≡ err e)
          × (is_decode_error e ≡ false))

  loaded_error :
      (r : Result Json) (e : Error)
      → bind_result (translate is_decode_error object_invalid_request r) read_last ≡ err e
      → (e ≡ object_invalid_request) ⊎ ((r ≡ err e) × (is_decode_error e ≡ false))
  loaded_error (ok v) e h = inl (read_last_error v e h)
  loaded_error (err x) e h = elim (Bool-cases (is_decode_error x)) [
    | inl d ↦
        let h' : ◌≡◌ {A = Result String} (err object_invalid_request) (err e) =
          rw (bind_result, translate, d) at h in
        inl (sym (err-injective h'))
    | inr d ↦
        let h' : ◌≡◌ {A = Result String} (err x) (err e) = rw (bind_result, translate, d) at h in
        let q = err-injective h' in
        inr (ap (λ y. err y) q, subst (λ y. is_decode_error y ≡ false) q d)
  ]

  verified_error :
      (v : List ℕ) (p s : Bytes) (e : Error)
      → verified H J self (v, p, s) ≡ err e
      → IsRefusal (ok (v, p, s)) e
  verified_error v p s e h =
      elim (Bool-cases (same_bytes v (codes "v1") && same_bytes s (H.hmac_sha256 self.key p))) [
        | inl t ↦
            let h' : bind_result (loaded p) read_last ≡ err e = rw t at h in
            let (x, y) = and-true (same_bytes v (codes "v1")) _ t in
            let version = same_bytes-eq v (codes "v1") x in
            let signature = same_bytes-eq s (H.hmac_sha256 self.key p) y in
            elim (loaded_error (J.loads p) e h') [
              | inl q ↦ inl q
              | inr (l, d) ↦ inr (p, rw (version, signature) refl, l, d)
            ]
        | inr t ↦
            let h' : ◌≡◌ {A = Result String} (err object_invalid_request) (err e) = rw t at h in
            inl (sym (err-injective h'))
      ]

  three_parts_error :
      (o : Option (List ℕ × List ℕ)) (e : Error) → three_parts o ≡ err e → e ≡ value_error
  three_parts_error none e h = ground arith
  three_parts_error (some (v, rest)) e h = ground arith

  decoded_error :
      (r : Result (List ℕ × List ℕ × List ℕ)) (e : Error)
      → ((x : Error) → r ≡ err x → x ≡ value_error)
      → bind_result r (decoded_parts H J) ≡ err e
      → e ≡ value_error
  decoded_error (ok (v, p, s)) e k h = ground (arith, unb64_error p e, unb64_error s e)
  decoded_error (err x) e k h = ground (arith, k e)

  decode_error_of :
      (r : Result (List ℕ × Bytes × Bytes)) (e : Error)
      → ((x : Error) → r ≡ err x → x ≡ value_error)
      → bind_result (translate is_type_or_value_error object_invalid_request r) (verified H J self)
        ≡ err e
      → IsRefusal r e
  decode_error_of (ok (v, p, s)) e k h = verified_error v p s e h
  decode_error_of (err x) e k h = inl (ground (arith, k x refl))

  -- A cursor that is not accepted is an invalid request, whatever is wrong with its parts, its
  -- signature, its encoding or its document, but for one case: the payload is signed under the key, and
  -- `json.loads` raises for it an error that is neither of JSON's syntax nor of its encoding, which is
  -- raised as it is.
  pub decode_error :
      (cursor : List ℕ) (e : Error)
      → decode H J self cursor ≡ err e
      → IsRefusal (parts H J cursor) e
  unfolding decode
  decode_error cursor e h =
      decode_error_of (parts H J cursor) e
        (λ x.
          decoded_error (three_parts (split_dot cursor)) x (three_parts_error (split_dot cursor)))
        h
