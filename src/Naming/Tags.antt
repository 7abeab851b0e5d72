-- ===== src/Naming/Tags.antt =====
-- On the tags of _naming.py.
use text.Mathlib.TextLemmas.{append_cancel_left}
use meridian_ociadapter.Prelude.{
  ℕ, ◌+◌, ◌≤◌, ◌≡◌, refl, sym, ap, ◌∙◌, true, false, List, ◌++◌, String, none, some, codes, all,
  all-append, all_mono, all-take, ◌∷◌, length, length-append, length-take, ◌<>◌, first_chars, ◌=ˢ◌,
  eq_iff, ◌≢◌, codes-append, codes-first_chars, append_parts, append-strip_prefix, Option-cases,
  inl, inr, arith, strip_prefix, strip_prefix-append,
}
use meridian_ociadapter.Effect.{ok}
use meridian_ociadapter.Effect.Rules.{ok-injective}
use meridian_ociadapter.Hashing.{Hashing, IsSha256, is_hex_char}
use meridian_ociadapter.Naming.{
  captured, is_word_char, version_of, digest_hex, is_tag_char, tag_matches, tag, object_id_hash,
  anchor_tag, latest_tag, version_tag,
}

-- A captured digest is hexadecimal, and the digest is its captured part behind the algorithm's name.
pub digest_hex-some :
    (digest h : String)
    → digest_hex digest ≡ some h
    → (digest ≡ "sha256:" <> h) × (all is_hex_char (codes h) ≡ true) × (length (codes h) ≡ 64)
unfolding digest_hex
digest_hex-some digest h e = elim (Option-cases (strip_prefix "sha256:" digest)) [
  | inl n ↦ let e' : none ≡ some h = rw (n, digest_hex) at e in cc
  | inr (r, p) ↦
      let e' : captured r ≡ some h = rw (p, digest_hex) at e in
      let same : r ≡ h = ground arith in
      (append-strip_prefix "sha256:" digest h (p ∙ ap some same), ground arith, ground arith)
]

-- The other way round.
pub digest_hex-sha256 :
    (h : String)
    → all is_hex_char (codes h) ≡ true
    → length (codes h) ≡ 64
    → digest_hex ("sha256:" <> h) ≡ some h
unfolding digest_hex
digest_hex-sha256 h p q = rw (strip_prefix-append "sha256:" h, digest_hex) (ground arith)

hex-tag_char : (c : ℕ) → is_hex_char c ≡ true → is_tag_char c ≡ true
hex-tag_char c e = ground arith

abbrev IsTagText : ℕ → String → Type 0
IsTagText n s = (all is_tag_char (codes s) ≡ true) × (length (codes s) ≤ n)

IsTagText-append :
    (m n : ℕ) (s t : String) → IsTagText m s → IsTagText n t → IsTagText (m + n) (s <> t)
IsTagText-append m n s t (p, l) (q, k) = rw (codes-append s t) (
  rw (all-append is_tag_char (codes s) (codes t), p, q) refl,
  omega (arith, length-append (codes s) (codes t)),
)

tag-eq-ok :
    (p c : String) (x : ℕ) (xs : List ℕ) (n : ℕ)
    → codes p ≡ x ∷ xs
    → is_word_char x ≡ true
    → all is_tag_char xs ≡ true
    → length xs + n ≤ 127
    → IsTagText n c
    → tag (p <> c) ≡ ok (p <> c)
unfolding tag
tag-eq-ok p c x xs n e w t l (q, k) =
    let e' : codes (p <> c) ≡ x ∷ (xs ++ codes c) = codes-append p c ∙ ap (λ ys. ys ++ codes c) e in
    rw (e', tag_matches)
      (ground (arith, all-append is_tag_char xs (codes c), length-append xs (codes c)))

kinds_differ :
    (p q x y : String)
    → length (codes p) ≡ length (codes q)
    → (p =ˢ q) ≡ false
    → p <> x ≡ q <> y
    → ⊥
kinds_differ p q x y l n e = let same = (append_parts p q x y l e).0 in cc ((eq_iff p q).1 same)

module _ (H : Hashing) (sha : IsSha256 H) where
  object_id_hash-IsTagText : (id : String) → IsTagText 64 (object_id_hash H id)
  unfolding object_id_hash
  object_id_hash-IsTagText id =
      let b : List ℕ = H.utf8 id in
      (
        all_mono is_hex_char is_tag_char hex-tag_char (codes (H.sha256_hex b)) (sha.hex b),
        omega (arith, sha.size b),
      )

  pub anchor_tag-eq-ok : (id : String) → anchor_tag H id ≡ ok ("m-a1-" <> object_id_hash H id)
  unfolding anchor_tag codes
  anchor_tag-eq-ok id =
      tag-eq-ok "m-a1-" (object_id_hash H id) _ _ 64 refl refl refl (omega arith)
        (object_id_hash-IsTagText id)

  pub latest_tag-eq-ok : (id : String) → latest_tag H id ≡ ok ("m-l1-" <> object_id_hash H id)
  unfolding latest_tag codes
  latest_tag-eq-ok id =
      tag-eq-ok "m-l1-" (object_id_hash H id) _ _ 64 refl refl refl (omega arith)
        (object_id_hash-IsTagText id)

  pub short_hash : String → String
  short_hash id = first_chars 32 (object_id_hash H id)

  short_hash-IsTagText : (id : String) → IsTagText 32 (short_hash id)
  unfolding short_hash
  short_hash-IsTagText id =
      let (a, l) = object_id_hash-IsTagText id in
      rw (codes-first_chars 32 (object_id_hash H id)) (
        all-take is_tag_char 32 (codes (object_id_hash H id)) a,
        omega (arith, length-take 32 (codes (object_id_hash H id))),
      )

  pub version_tag-eq-ok :
      (id digest h : String)
      → digest_hex digest ≡ some h
      → version_tag H id digest ≡ ok ("m-v1-" <> short_hash id <> "-" <> h)
  unfolding version_tag short_hash codes
  version_tag-eq-ok id digest h e =
      let (_, a, l) = digest_hex-some digest h e in
      rw (e, version_of H)
        (tag-eq-ok "m-v1-" (short_hash id <> "-" <> h) _ _ 97 refl refl refl (omega arith) (
          IsTagText-append 32 65 (short_hash id) ("-" <> h) (short_hash-IsTagText id) (
            IsTagText-append 1 64 "-" h (refl, omega arith)
              (all_mono is_hex_char is_tag_char hex-tag_char (codes h) a, omega arith))))

  length-short_hash : (id : String) → length (codes (short_hash id)) ≡ 32
  unfolding short_hash object_id_hash
  length-short_hash id =
      rw (codes-first_chars 32 (H.sha256_hex (H.utf8 id)))
        (omega (arith, length-take 32 (codes (H.sha256_hex (H.utf8 id))), sha.size (H.utf8 id)))

  version_tag-ok :
      (id digest t : String)
      → version_tag H id digest ≡ ok t
      → (h : String) × (digest_hex digest ≡ some h) × (t ≡ "m-v1-" <> short_hash id <> "-" <> h)
  unfolding version_tag
  version_tag-ok id digest t e = elim (Option-cases (digest_hex digest)) [
    | inl n ↦ let e' : version_of H id none ≡ ok t = rw n at e in unfold version_of in cc
    | inr (h, p) ↦ (h, p, ok-injective (sym e ∙ version_tag-eq-ok id digest h p))
  ]

  -- Two pairs of an id and a digest that have the same version tag have the same digest, and ids whose
  -- hashes agree in their first 32 digits.
  pub version_tag_injective :
      (a b d e t : String)
      → version_tag H a d ≡ ok t
      → version_tag H b e ≡ ok t
      → (d ≡ e) × (first_chars 32 (object_id_hash H a) ≡ first_chars 32 (object_id_hash H b))
  unfolding short_hash
  version_tag_injective a b d e t p q =
      let (h, dh, th) = version_tag-ok a d t p in
      let (k, ek, tk) = version_tag-ok b e t q in
      let rest = append_cancel_left "m-v1-" _ _ (sym th ∙ tk) in
      let (ids, tails) =
        append_parts (short_hash a) (short_hash b) ("-" <> h) ("-" <> k)
          (length-short_hash a ∙ sym (length-short_hash b)) rest in
      let same = append_cancel_left "-" h k tails in
      (
        (digest_hex-some d h dh).0 ∙ ap (λ x. "sha256:" <> x) same ∙ sym (digest_hex-some e k ek).0,
        ids,
      )

  -- The anchor tag of one Object, the latest tag of another and a version tag of a third never
  -- coincide, whatever the Objects are.
  pub tags_disjoint :
      (a b c d s t u : String)
      → anchor_tag H a ≡ ok s
      → latest_tag H b ≡ ok t
      → version_tag H c d ≡ ok u
      → (s ≢ t) × (s ≢ u) × (t ≢ u)
  unfolding codes
  tags_disjoint a b c d s t u p q r =
      let sa = ok-injective (sym p ∙ anchor_tag-eq-ok a) in
      let tl = ok-injective (sym q ∙ latest_tag-eq-ok b) in
      let (h, _, uv) = version_tag-ok c d u r in
      (
        (λ e. kinds_differ "m-a1-" "m-l1-" _ _ refl refl (sym sa ∙ e ∙ tl)),
        (λ e. kinds_differ "m-a1-" "m-v1-" _ _ refl refl (sym sa ∙ e ∙ uv)),
        (λ e. kinds_differ "m-l1-" "m-v1-" _ _ refl refl (sym tl ∙ e ∙ uv)),
      )
