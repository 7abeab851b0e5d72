-- ===== src/Cursor/Base64/Laws.antt =====
-- `_b64` and `_unb64` of _naming.py, together.
use meridian_ociadapter.Prelude.{
  ℕ, suc, ◌+◌, ◌-◌, ◌*◌, ◌/◌, ◌%◌, ◌<◌, ◌≡◌, refl, ap, Bool, true, false, not, List, [], ◌∷◌, ◌++◌,
  some, ltb, ◌==◌, length, all, All, arith,
}
use meridian_ociadapter.Effect.{ok}
use meridian_ociadapter.Hashing.{Bytes}
use meridian_ociadapter.Cursor.Base64.{
  char_of, value_of, urlsafe_b64encode, Quad, empty, one, two, three, digit_move, quad_after,
  pads_after, finish, move, a2b, urlsafe_b64decode, rstrip_pad, strip, pads, b64, unb64,
}

abbrev pub AreBytes : Bytes → Type 0
AreBytes = All (λ b. b < 256)

value_of-char_of : (x : ℕ) → x < 64 → value_of (char_of x) ≡ some x
value_of-char_of x h = ground arith

char_of-ne-pad : (x : ℕ) → x < 64 → (char_of x == b'=') ≡ false
char_of-ne-pad x h = ground arith

char_of-ascii : (x : ℕ) → x < 64 → ltb (char_of x) 128 ≡ true
char_of-ascii x h = ground arith

move-char_of : (q : Quad) (p x : ℕ) → x < 64 → move q p (char_of x) ≡ digit_move q x
unfolding move
move-char_of q p x h = rw (char_of-ne-pad x h, value_of-char_of x h) refl

a2b-char_of :
    (q : Quad) (p x : ℕ) (cs : List ℕ)
    → x < 64
    → a2b q p (char_of x ∷ cs)
      ≡ finish (digit_move q x) (a2b (quad_after (digit_move q x)) (pads_after (digit_move q x)) cs)
unfolding a2b
a2b-char_of empty p x cs h =
    ap (λ m. finish m (a2b (quad_after m) (pads_after m) cs)) (move-char_of empty p x h)
a2b-char_of q p x cs h =
    ap (λ m. finish m (a2b (quad_after m) (pads_after m) cs)) (move-char_of q p x h)

a2b-two_pads : (x : ℕ) → a2b (two x) 0 (b'=' ∷ b'=' ∷ []) ≡ ok []
unfolding a2b move
a2b-two_pads x = refl

a2b-one_pad : (x : ℕ) → a2b (three x) 0 (b'=' ∷ []) ≡ ok []
unfolding a2b move
a2b-one_pad x = refl

one_byte : (m a : ℕ) → m ≡ a → ok (m ∷ []) ≡ ok (a ∷ [])
one_byte m a p = cc

two_bytes : (m a n b : ℕ) → m ≡ a → n ≡ b → ok (m ∷ n ∷ []) ≡ ok (a ∷ b ∷ [])
two_bytes m a n b p q = cc

three_bytes :
    (m a n b k c : ℕ) (rest : Bytes)
    → m ≡ a
    → n ≡ b
    → k ≡ c
    → ok (m ∷ n ∷ k ∷ rest) ≡ ok (a ∷ b ∷ c ∷ rest)
three_bytes m a n b k c rest p q r = cc

-- The decoder reads back what the encoder wrote, padding included.
a2b-encode : (v : Bytes) → AreBytes v → a2b empty 0 (urlsafe_b64encode v) ≡ ok v
unfolding urlsafe_b64encode
a2b-encode [] h = unfold a2b in refl
a2b-encode (a ∷ []) (ha, _) =
    rw
      (
        a2b-char_of empty 0 (a / 4) (char_of (a % 4 * 16) ∷ b'=' ∷ b'=' ∷ []) (omega arith),
        a2b-char_of (one (a / 4)) 0 (a % 4 * 16) (b'=' ∷ b'=' ∷ []) (omega arith),
        a2b-two_pads (a % 4 * 16 % 16),
      )
      (one_byte _ _ (omega arith))
a2b-encode (a ∷ b ∷ []) (ha, (hb, _)) =
    rw
      (
        a2b-char_of empty 0 (a / 4)
            (char_of (a % 4 * 16 + b / 16) ∷ char_of (b % 16 * 4) ∷ b'=' ∷ []) (omega arith),
        a2b-char_of (one (a / 4)) 0 (a % 4 * 16 + b / 16) (char_of (b % 16 * 4) ∷ b'=' ∷ [])
            (omega arith),
        a2b-char_of (two ((a % 4 * 16 + b / 16) % 16)) 0 (b % 16 * 4) (b'=' ∷ []) (omega arith),
        a2b-one_pad (b % 16 * 4 % 4),
      )
      (two_bytes _ _ _ _ (omega arith) (omega arith))
a2b-encode (a ∷ b ∷ c ∷ rest) (ha, (hb, (hc, hr))) =
    let w = char_of (a % 4 * 16 + b / 16) in
    let x = char_of (b % 16 * 4 + c / 64) in
    let y = char_of (c % 64) in
    let more = urlsafe_b64encode rest in
    rw
      (
        a2b-char_of empty 0 (a / 4) (w ∷ x ∷ y ∷ more) (omega arith),
        a2b-char_of (one (a / 4)) 0 (a % 4 * 16 + b / 16) (x ∷ y ∷ more) (omega arith),
        a2b-char_of (two ((a % 4 * 16 + b / 16) % 16)) 0 (b % 16 * 4 + c / 64) (y ∷ more)
            (omega arith),
        a2b-char_of (three ((b % 16 * 4 + c / 64) % 4)) 0 (c % 64) more (omega arith),
        a2b-encode rest hr,
      )
      (three_bytes _ _ _ _ _ _ rest (omega arith) (omega arith) (omega arith))

strip-char_of : (x : ℕ) (cs : List ℕ) → x < 64 → strip (char_of x) cs ≡ char_of x ∷ cs
strip-char_of x [] h = rw (char_of-ne-pad x h) refl
strip-char_of x (c ∷ cs) h = refl

-- The digits alone.
unpadded : Bytes → List ℕ
unpadded [] = []
unpadded (a ∷ []) = char_of (a / 4) ∷ char_of (a % 4 * 16) ∷ []
unpadded (a ∷ b ∷ []) = char_of (a / 4) ∷ char_of (a % 4 * 16 + b / 16) ∷ char_of (b % 16 * 4) ∷ []
unpadded (a ∷ b ∷ c ∷ rest) =
    char_of (a / 4)
    ∷ char_of (a % 4 * 16 + b / 16)
    ∷ char_of (b % 16 * 4 + c / 64)
    ∷ char_of (c % 64)
    ∷ unpadded rest

b64-unpadded : (v : Bytes) → AreBytes v → b64 v ≡ unpadded v
unfolding b64 urlsafe_b64encode unpadded rstrip_pad
b64-unpadded [] h = refl
b64-unpadded (a ∷ []) (ha, _) = rw (strip-char_of (a % 4 * 16) [] (omega arith)) refl
b64-unpadded (a ∷ b ∷ []) (ha, (hb, _)) = rw (strip-char_of (b % 16 * 4) [] (omega arith)) refl
b64-unpadded (a ∷ b ∷ c ∷ rest) (ha, (hb, (hc, hr))) =
    rw (b64-unpadded rest hr, strip-char_of (c % 64) (unpadded rest) (omega arith)) refl

missing : ℕ → List ℕ
missing n = pads ((4 - n % 4) % 4)

missing_add_four : (n : ℕ) → missing (suc (suc (suc (suc n)))) ≡ missing n
unfolding missing
missing_add_four n = ap (λ k. pads k) (omega arith)

unpadded-missing : (v : Bytes) → unpadded v ++ missing (length (unpadded v)) ≡ urlsafe_b64encode v
unfolding unpadded urlsafe_b64encode
unpadded-missing [] = unfold missing in refl
unpadded-missing (a ∷ []) = unfold missing in refl
unpadded-missing (a ∷ b ∷ []) = unfold missing in refl
unpadded-missing (a ∷ b ∷ c ∷ rest) =
    rw (missing_add_four (length (unpadded rest)), unpadded-missing rest) refl

abbrev is_ascii : List ℕ → Bool
is_ascii = all (λ c. ltb c 128)

encode-ascii : (v : Bytes) → AreBytes v → is_ascii (urlsafe_b64encode v) ≡ true
unfolding urlsafe_b64encode
encode-ascii [] h = refl
encode-ascii (a ∷ []) (ha, _) =
    rw (char_of-ascii (a / 4) (omega arith), char_of-ascii (a % 4 * 16) (omega arith)) refl
encode-ascii (a ∷ b ∷ []) (ha, (hb, _)) =
    rw
      (
        char_of-ascii (a / 4) (omega arith),
        char_of-ascii (a % 4 * 16 + b / 16) (omega arith),
        char_of-ascii (b % 16 * 4) (omega arith),
      )
      refl
encode-ascii (a ∷ b ∷ c ∷ rest) (ha, (hb, (hc, hr))) =
    rw
      (
        char_of-ascii (a / 4) (omega arith),
        char_of-ascii (a % 4 * 16 + b / 16) (omega arith),
        char_of-ascii (b % 16 * 4 + c / 64) (omega arith),
        char_of-ascii (c % 64) (omega arith),
        encode-ascii rest hr,
      )
      refl

-- For every sequence of bytes, `_unb64` of its `_b64` returns it.
pub unb64-b64 : (v : Bytes) → AreBytes v → unb64 (b64 v) ≡ ok v
unfolding unb64 urlsafe_b64decode missing
unb64-b64 v h = rw (b64-unpadded v h, unpadded-missing v, encode-ascii v h) (a2b-encode v h)

-- No digit is a dot, so a cursor can be split again.
char_of-ne-dot : (x : ℕ) → x < 64 → (char_of x == b'.') ≡ false
char_of-ne-dot x h = ground arith

abbrev pub has_no_dot : List ℕ → Bool
has_no_dot = all (λ c. not (c == b'.'))

unpadded-no_dot : (v : Bytes) → AreBytes v → has_no_dot (unpadded v) ≡ true
unfolding unpadded
unpadded-no_dot [] h = refl
unpadded-no_dot (a ∷ []) (ha, _) =
    rw (char_of-ne-dot (a / 4) (omega arith), char_of-ne-dot (a % 4 * 16) (omega arith)) refl
unpadded-no_dot (a ∷ b ∷ []) (ha, (hb, _)) =
    rw
      (
        char_of-ne-dot (a / 4) (omega arith),
        char_of-ne-dot (a % 4 * 16 + b / 16) (omega arith),
        char_of-ne-dot (b % 16 * 4) (omega arith),
      )
      refl
unpadded-no_dot (a ∷ b ∷ c ∷ rest) (ha, (hb, (hc, hr))) =
    rw
      (
        char_of-ne-dot (a / 4) (omega arith),
        char_of-ne-dot (a % 4 * 16 + b / 16) (omega arith),
        char_of-ne-dot (b % 16 * 4 + c / 64) (omega arith),
        char_of-ne-dot (c % 64) (omega arith),
        unpadded-no_dot rest hr,
      )
      refl

pub b64-no_dot : (v : Bytes) → AreBytes v → has_no_dot (b64 v) ≡ true
b64-no_dot v h = rw (b64-unpadded v h) (unpadded-no_dot v h)
