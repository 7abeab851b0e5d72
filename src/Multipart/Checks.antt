-- ===== src/Multipart/Checks.antt =====
-- On the checks of a completion in multipart/__init__.py: equal parts and their least size.
use meridian_ociadapter.Prelude.{
  ◌≤◌, ◌≡◌, refl, true, false, ◌&&◌, and-true, or-false, List, [], ◌∷◌, ◌=ˢ◌, ◌==◌, ==→eq, eq_iff,
  not-ltb→le,
}
use meridian_ociadapter.Multipart.{
  MultipartPart, same_part, same_parts, min_part_bytes, has_small_part,
}

part_path :
    (a b : MultipartPart)
    → a.part_number ≡ b.part_number
    → a.identity.digest ≡ b.identity.digest
    → a.identity.byte_length ≡ b.identity.byte_length
    → a.verification ≡ b.verification
    → a ≡ b
part_path a b n d l v = λ i. record {
  part_number = n i;
  identity = record { digest = d i; byte_length = l i };
  verification = v i;
}

same_part-eq : (a b : MultipartPart) → same_part a b ≡ true → a ≡ b
same_part-eq a b h =
    let same_digest = a.identity.digest =ˢ b.identity.digest in
    let same_length = a.identity.byte_length == b.identity.byte_length in
    let (x, v) =
      and-true (a.part_number == b.part_number && same_digest && same_length)
        (a.verification =ˢ b.verification) h in
    let (y, l) = and-true (a.part_number == b.part_number && same_digest) same_length x in
    let (n, d) = and-true (a.part_number == b.part_number) same_digest y in
    part_path a b (==→eq a.part_number b.part_number n)
      ((eq_iff a.identity.digest b.identity.digest).0 d)
      (==→eq a.identity.byte_length b.identity.byte_length l)
      ((eq_iff a.verification b.verification).0 v)

pub same_parts-eq : (as_ bs : List MultipartPart) → same_parts as_ bs ≡ true → as_ ≡ bs
unfolding same_parts
same_parts-eq [] [] h = refl
same_parts-eq (a ∷ as_) (b ∷ bs) h =
    let (p, q) = and-true _ _ h in λ i. same_part-eq a b p i ∷ same_parts-eq as_ bs q i
same_parts-eq [] (b ∷ bs) h = cc
same_parts-eq (a ∷ as_) [] h = cc

-- Every part but the last one has the least size or more.
abbrev pub AreLarge : List MultipartPart → Type 0
AreLarge [] = Unit
AreLarge (p ∷ []) = Unit
AreLarge (p ∷ q ∷ ps) = (min_part_bytes ≤ p.identity.byte_length) × AreLarge (q ∷ ps)

pub has_small_part-AreLarge : (ps : List MultipartPart) → has_small_part ps ≡ false → AreLarge ps
unfolding has_small_part
has_small_part-AreLarge [] h = tt
has_small_part-AreLarge (p ∷ []) h = tt
has_small_part-AreLarge (p ∷ q ∷ ps) h =
    let (p', q') = or-false _ _ h in (not-ltb→le _ _ p', has_small_part-AreLarge (q ∷ ps) q')
