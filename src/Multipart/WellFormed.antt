-- ===== src/Multipart/WellFormed.antt =====
-- On the sessions of multipart/__init__.py: the dict, and what holds of a session between two calls.
use mathlib.Core.Path.{subst}
use meridian_ociadapter.Prelude.{
  ℕ, suc, ◌+◌, ◌≤◌, ◌<◌, ◌≡◌, refl, sym, List, [], ◌∷◌, ◌++◌, append_assoc, append-nil, String,
  none, some, ◌=ˢ◌, eq_refl, All, length, arith, Bool-cases, inl, inr,
}
use meridian_ociadapter.Hashing.{Bytes, sha256_digest}
use meridian_ociadapter.Adapter.{OciDistributionAdapter}
use meridian_ociadapter.Multipart.{
  MultipartPart, MultipartState, Sessions, find, put_session, pop_session,
}

-- The bytes of the parts together.
abbrev pub join : List Bytes → Bytes
join [] = []
join (b ∷ bs) = b ++ join bs

pub join-append : (bs : List Bytes) (b : Bytes) → join (bs ++ b ∷ []) ≡ join bs ++ b
join-append [] b = append-nil b
join-append (a ∷ bs) b = rw (join-append bs b) (sym (append_assoc a (join bs) b))

module _ {W : Type 0} (self : OciDistributionAdapter W) where
  -- Part `n` was made from the bytes `b`.
  pub record IsPart (n : ℕ) (b : Bytes) (p : MultipartPart) : Type 0 where
    pub number : p.part_number ≡ n
    pub digest : p.identity.digest ≡ sha256_digest self.hashing b
    pub size : p.identity.byte_length ≡ length b
    pub filled : 0 < length b

  -- The parts from number `n` on, in order, each made from its bytes.
  abbrev pub AreParts : ℕ → List Bytes → List MultipartPart → Type 0
  AreParts n [] [] = Unit
  AreParts n (b ∷ bs) (p ∷ ps) = IsPart n b p × AreParts (suc n) bs ps
  AreParts n _ _ = ⊥

  pub AreParts-append :
      (n : ℕ) (bs : List Bytes) (ps : List MultipartPart) (b : Bytes) (p : MultipartPart)
      → AreParts n bs ps
      → IsPart (n + length ps) b p
      → AreParts n (bs ++ b ∷ []) (ps ++ p ∷ [])
  AreParts-append n [] [] b p h k = (subst (λ i. IsPart i b p) (omega arith) k, tt)
  AreParts-append n (a ∷ bs) (q ∷ ps) b p (h, hs) k =
      (h, AreParts-append (suc n) bs ps b p hs (subst (λ i. IsPart i b p) (omega arith) k))
  AreParts-append n [] (q ∷ ps) b p h k = absurd h
  AreParts-append n (a ∷ bs) [] b p h k = absurd h

  -- Between two calls: the parts are numbered from 1, the hasher has been given their bytes in order,
  -- and the upload stands at the length of them all, which is within the limit.
  pub record IsSession (s : MultipartState) : Type 0 where
    pub segments : List Bytes
    pub parts : AreParts 1 segments s.parts
    pub hashed : s.hashed ≡ join segments
    pub size : s.length ≡ length s.hashed
    pub offset : s.upload.offset ≡ s.length
    pub limit : s.length ≤ self.binding.max_object_bytes
    pub next : s.next_part ≡ suc (length s.parts)

  abbrev pub AreSessions : Sessions → Type 0
  AreSessions = All (λ (e : String × MultipartState). IsSession e.1)

module _ (P : MultipartState → Type 0) where
  pub find-All :
      (k : String) (ss : Sessions) (s : MultipartState)
      → All (λ (e : String × MultipartState). P e.1) ss
      → find k ss ≡ some s
      → P s
  find-All k [] s h e = cc
  find-All k ((j, t) ∷ ss) s (p, h) e = elim (Bool-cases (j =ˢ k)) [
    | inl q ↦ let e' : some t ≡ some s = rw q at e in subst P (cc) p
    | inr q ↦ find-All k ss s h (rw q at e)
  ]

  pub All-put_session :
      (k : String) (s : MultipartState) (ss : Sessions)
      → P s
      → All (λ (e : String × MultipartState). P e.1) ss
      → All (λ (e : String × MultipartState). P e.1) (put_session k s ss)
  unfolding put_session
  All-put_session k s [] p h = (p, tt)
  All-put_session k s ((j, t) ∷ ss) p (q, h) = elim (Bool-cases (j =ˢ k)) [
    | inl e ↦ rw e (p, h)
    | inr e ↦ rw e (q, All-put_session k s ss p h)
  ]

  pub All-pop_session :
      (k : String) (ss : Sessions)
      → All (λ (e : String × MultipartState). P e.1) ss
      → All (λ (e : String × MultipartState). P e.1) (pop_session k ss)
  unfolding pop_session
  All-pop_session k [] h = tt
  All-pop_session k ((j, t) ∷ ss) (q, h) = elim (Bool-cases (j =ˢ k)) [
    | inl e ↦ rw e (All-pop_session k ss h)
    | inr e ↦ rw e (q, All-pop_session k ss h)
  ]

pub find-put_session :
    (k : String) (s : MultipartState) (ss : Sessions) → find k (put_session k s ss) ≡ some s
unfolding put_session
find-put_session k s [] = rw (eq_refl k)
find-put_session k s ((j, t) ∷ ss) = elim (Bool-cases (j =ˢ k)) [
  | inl e ↦ rw (e, eq_refl k)
  | inr e ↦ rw (e, e) (find-put_session k s ss)
]

pub find-pop_session : (k : String) (ss : Sessions) → find k (pop_session k ss) ≡ none
unfolding pop_session
find-pop_session k [] = refl
find-pop_session k ((j, t) ∷ ss) = elim (Bool-cases (j =ˢ k)) [
  | inl e ↦ rw e (find-pop_session k ss)
  | inr e ↦ rw (e, e) (find-pop_session k ss)
]

pub put_session-put_session :
    (k : String) (s t : MultipartState) (ss : Sessions)
    → put_session k s (put_session k t ss) ≡ put_session k s ss
unfolding put_session
put_session-put_session k s t [] = rw (eq_refl k)
put_session-put_session k s t ((j, u) ∷ ss) = elim (Bool-cases (j =ˢ k)) [
  | inl e ↦ rw (e, eq_refl k)
  | inr e ↦ rw (e, e, put_session-put_session k s t ss)
]

pub pop_session-put_session :
    (k : String) (s : MultipartState) (ss : Sessions)
    → pop_session k (put_session k s ss) ≡ pop_session k ss
unfolding put_session pop_session
pop_session-put_session k s [] = rw (eq_refl k)
pop_session-put_session k s ((j, u) ∷ ss) = elim (Bool-cases (j =ˢ k)) [
  | inl e ↦ rw (e, eq_refl k)
  | inr e ↦ rw (e, e, pop_session-put_session k s ss)
]
