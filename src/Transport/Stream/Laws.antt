-- ===== src/Transport/Stream/Laws.antt =====
-- On the reads of `IteratorReader` in transport/stream.py, with the rest of the body as the state.
use mathlib.Core.Path.{subst}
use meridian_ociadapter.Prelude.{
  ℕ, zero, suc, ◌≤◌, ◌≡◌, refl, sym, ap, ◌∙◌, true, false, [], ◌∷◌, ◌++◌, append_assoc, append-nil,
  Option, none, some, ltb, not-ltb→le, length, take, drop, arith, Bool-cases, inl, inr, if_cases,
  if◌then◌else◌,
}
use meridian_ociadapter.Effect.{Result, ok, err, value_error}
use meridian_ociadapter.Hashing.{Bytes}
use meridian_ociadapter.Transport.Stream.{
  Chunks, done, broken, chunk, IteratorReader, drain, fill, cut, whole, read_open, read,
}

-- The bytes that an iterator yields, and whether it ends without raising.
abbrev pub bytes_of : Chunks → Bytes
bytes_of done = []
bytes_of (broken e) = []
bytes_of (chunk c rest) = c ++ bytes_of rest

abbrev pub Ends : Chunks → Type 0
Ends done = Unit
Ends (broken e) = ⊥
Ends (chunk c rest) = Ends rest

-- What is still to be read.
abbrev pub contents : IteratorReader → Bytes
contents self = self.buffer ++ bytes_of self.chunks

-- A reader over an iterator that does not raise; once it has ended, nothing is left to fetch.
pub record IsHealthy (self : IteratorReader) : Type 0 where
  pub ends : Ends self.chunks
  pub opened : self.closed ≡ false
  pub exhausted : self.ended ≡ true → bytes_of self.chunks ≡ []

take-append_left : (n : ℕ) (xs ys : Bytes) → n ≤ length xs → take n (xs ++ ys) ≡ take n xs
take-append_left zero xs ys h = refl
take-append_left (suc n) [] ys h = elim h [ ]
take-append_left (suc n) (x ∷ xs) ys h = ap (λ t. x ∷ t) (take-append_left n xs ys (omega arith))

drop-append_left : (n : ℕ) (xs ys : Bytes) → n ≤ length xs → drop n (xs ++ ys) ≡ drop n xs ++ ys
drop-append_left zero xs ys h = refl
drop-append_left (suc n) [] ys h = elim h [ ]
drop-append_left (suc n) (x ∷ xs) ys h = drop-append_left n xs ys (omega arith)

-- A result and the reader after it, as `read` must leave them for the bytes before.
pub record Reads (n : ℕ) (all : Bytes) (r : Result Bytes × IteratorReader) : Type 0 where
  pub result : r.0 ≡ ok (take n all)
  pub rest : contents r.1 ≡ drop n all
  pub healthy : IsHealthy r.1

cut-full :
    (n : ℕ) (self : IteratorReader)
    → IsHealthy self
    → (n ≤ length self.buffer)
    → Reads n (contents self) (cut n (none, self))
cut-full n self h l = record {
  result = ap ok (sym (take-append_left n self.buffer (bytes_of self.chunks) l));
  rest = sym (drop-append_left n self.buffer (bytes_of self.chunks) l);
  healthy = record { ends = h.ends; opened = h.opened; exhausted = h.exhausted };
}

cut-last :
    (n : ℕ) (self : IteratorReader)
    → IsHealthy self
    → bytes_of self.chunks ≡ []
    → Reads n (contents self) (cut n (none, self))
cut-last n self h e =
    let all : contents self ≡ self.buffer = ap (λ t. self.buffer ++ t) e ∙ append-nil self.buffer in
    record {
      result = ap ok (ap (take n) (sym all));
      rest =
          ap (λ t. drop n self.buffer ++ t) e
          ∙ append-nil (drop n self.buffer)
          ∙ ap (drop n) (sym all);
      healthy = record { ends = h.ends; opened = h.opened; exhausted = h.exhausted };
    }

fill_lem :
    (n : ℕ) (cs : Chunks) (b : Bytes) (self : IteratorReader)
    → Ends cs
    → self.closed ≡ false
    → self.ended ≡ false
    → Reads n (b ++ bytes_of cs) (cut n (fill n cs b self))
unfolding fill
fill_lem n done b self h c e = elim (Bool-cases (ltb (length b) n)) [
  | inl more ↦ rw more (
      cut-last n (record self { chunks = done; buffer = b; ended = true })
        (record { ends = tt; opened = c; exhausted = λ _. refl }) refl)
  | inr full ↦ rw full (
      cut-full n (record self { chunks = done; buffer = b })
        (record { ends = tt; opened = c; exhausted = λ _. refl }) (not-ltb→le _ _ full))
]
fill_lem n (broken x) b self h c e = absurd h
fill_lem n (chunk d rest) b self h c e = elim (Bool-cases (ltb (length b) n)) [
  | inl more ↦ rw (more, ← append_assoc b d (bytes_of rest)) (fill_lem n rest (b ++ d) self h c e)
  | inr full ↦ rw full (
      cut-full n (record self { chunks = chunk d rest; buffer = b })
        (record { ends = h; opened = c; exhausted = λ x. let f : false ≡ true = sym e ∙ x in cc })
        (not-ltb→le _ _ full))
]

read-open :
    (size : Option ℕ) (self : IteratorReader)
    → self.closed ≡ false
    → read size self ≡ read_open size self
unfolding read
read-open size self c = ap (λ b. if b then (err value_error, self) else read_open size self) c

-- `read(n)` for a positive n returns the next n bytes, fewer only at the end, and leaves the rest to
-- be read, on every reader over an iterator that does not raise.
pub read_lem :
    (n : ℕ) (self : IteratorReader)
    → IsHealthy self
    → Reads (suc n) (contents self) (read (some (suc n)) self)
unfolding read
read_lem n self h =
    subst (Reads (suc n) (contents self)) (sym (read-open (some (suc n)) self h.opened)) (
      unfold read_open in
      if_cases (Reads (suc n) (contents self)) self.ended (cut (suc n) (none, self))
        (cut (suc n) (fill (suc n) self.chunks self.buffer self))
        (λ e. cut-last (suc n) self h (h.exhausted e))
        (λ e. fill_lem (suc n) self.chunks self.buffer self h.ends h.opened e))

drain_lem :
    (cs : Chunks) (b : Bytes) (self : IteratorReader)
    → Ends cs
    → self.closed ≡ false
    → ((whole (drain cs b self)).0 ≡ ok (b ++ bytes_of cs))
      × (contents (whole (drain cs b self)).1 ≡ [])
      × IsHealthy (whole (drain cs b self)).1
unfolding drain
drain_lem done b self h c =
    (ap ok (sym (append-nil b)), refl, record { ends = tt; opened = c; exhausted = λ _. refl })
drain_lem (broken x) b self h c = absurd h
drain_lem (chunk d rest) b self h c =
    rw (← append_assoc b d (bytes_of rest)) (drain_lem rest (b ++ d) self h c)

-- `read()` returns everything that is left, and then nothing is left.
pub read_whole :
    (self : IteratorReader)
    → IsHealthy self
    → ((read none self).0 ≡ ok (contents self))
      × (contents (read none self).1 ≡ [])
      × IsHealthy (read none self).1
unfolding read
read_whole self h = simp h.opened (drain_lem self.chunks self.buffer self h.ends h.opened)
