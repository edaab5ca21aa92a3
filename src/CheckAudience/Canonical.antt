-- ===== src/CheckAudience/Canonical.antt =====
-- The canonical form of an audience, described by recursion on its bytes, and the proof that
-- `sanitizeAudience` computes it.
use jwt_verify_lib.Prelude.{
  ℕ, zero, suc, ◌+◌, ◌-◌, ◌%◌, ◌^◌, ◌≤◌, ◌<◌, ◌≡◌, ◌↔◌, ◌⊎◌, inl, inr, refl, sym, ap, ◌∙◌, Bool,
  true, false, [], ◌∷◌, ◌++◌, Option, none, some, Bytes, ◌==◌, if◌then◌else◌, length, take, char_at,
  substr, drop-append, length-append, arith, Bool-cases, Option-cases,
}
use Prim.Native.Nat.add
use jwt_verify_lib.External.Absl.{Absl, StartsWithLaw}
use jwt_verify_lib.CheckAudience.{
  http_scheme_prefix, https_scheme_prefix, scheme_end, cut_audience, sanitize_audience,
}

-- The text behind a prefix, where it has the prefix.
pub strip_prefix : Bytes → Bytes → Option Bytes
strip_prefix [] s = some s
strip_prefix (p ∷ ps) [] = none
strip_prefix (p ∷ ps) (c ∷ s) = if p == c then strip_prefix ps s else none

-- The text without its scheme.
unfoldable pub strip_scheme : Bytes → Bytes
strip_scheme s = elim (strip_prefix http_scheme_prefix s) [
  | some rest ↦ rest
  | none ↦ elim (strip_prefix https_scheme_prefix s) [ some rest ↦ rest | none ↦ s ]
]

-- The text without one trailing slash.
unfoldable pub strip_slash : Bytes → Bytes
strip_slash [] = []
strip_slash (c ∷ []) = if c == b'/' then [] else c ∷ []
strip_slash (c ∷ d ∷ s) = c ∷ strip_slash (d ∷ s)

-- The form in which two audiences are compared.
unfoldable pub canonical : Bytes → Bytes
unfolding strip_scheme
canonical s = strip_slash (strip_scheme s)

pub strip_prefix_iff : (p s rest : Bytes) → (strip_prefix p s ≡ some rest) ↔ (s ≡ p ++ rest)
unfolding strip_prefix
strip_prefix_iff [] s rest = ground arith
strip_prefix_iff (c ∷ p) [] rest = ground arith
strip_prefix_iff (c ∷ p) (d ∷ s) rest = ground (arith, strip_prefix_iff p s rest)

last_byte : Bytes → ℕ
last_byte s = char_at s (length s - 1)

-- `last_byte` and `take` describe `strip_slash`.
strip_slash_lem :
    (c : ℕ) (s : Bytes)
    → strip_slash (c ∷ s)
      ≡ (if char_at (c ∷ s) (length s) == b'/' then take (length s) (c ∷ s) else c ∷ s)
unfolding strip_slash
strip_slash_lem c [] = refl
strip_slash_lem c (d ∷ s) = ground (arith, strip_slash_lem d s)

take_all : (s : Bytes) (n : ℕ) → length s ≤ n → take n s ≡ s
take_all [] zero h = refl
take_all [] (suc n) h = refl
take_all (c ∷ s) zero h = absurd (omega arith)
take_all (c ∷ s) (suc n) h = ap (◌∷◌ c) (take_all s n (omega arith))

char_at-append : (p s : Bytes) (i : ℕ) → char_at (p ++ s) (length p + i) ≡ char_at s i
char_at-append [] s i = ground arith
char_at-append (c ∷ p) s i = rw (add.suc (length p) i) (char_at-append p s i)

wrapped_length : (b n : ℕ) → n < 2 ^ 64 → (b + n + 2 ^ 64 - b) % 2 ^ 64 ≡ n
wrapped_length b n h = omega arith

module _ (p : Bytes) (c : ℕ) (s : Bytes) (fits : length (p ++ c ∷ s) < 2 ^ 64) where
  aud : Bytes
  aud = p ++ c ∷ s

  length-aud : length aud ≡ length p + suc (length s)
  unfolding aud
  length-aud = length-append p (c ∷ s)

  char_at-aud : char_at aud (length aud - 1) ≡ char_at (c ∷ s) (length s)
  unfolding aud
  char_at-aud =
      ap (char_at aud)
        (let e : length aud - 1 ≡ length p + length s = omega (arith, length-aud) in e)
      ∙ char_at-append p (c ∷ s) (length s)

  substr-aud :
      (n m : ℕ)
      → m ≡ length p + n
      → n ≤ suc (length s)
      → substr aud (length p) ((m + 2 ^ 64 - length p) % 2 ^ 64) ≡ some (take n (c ∷ s))
  unfolding aud
  substr-aud n m e h =
      rw (e, wrapped_length (length p) n (omega (arith, fits, length-aud)), drop-append p (c ∷ s))
        (ground (arith, length-aud))

  -- What `sanitizeAudience` does behind a scheme of `length p` bytes.
  cut_lem :
      (sanitized : Bool)
      → (sanitized ≡ true) ⊎ (p ≡ [])
      → cut_audience aud (length p) sanitized ≡ some (strip_slash (c ∷ s))
  unfolding cut_audience aud
  cut_lem sanitized h = ground (
    arith,
    char_at-aud,
    strip_slash_lem c s,
    substr-aud (length s) (length aud - 1),
    substr-aud (suc (length s)) (length aud),
    take_all (c ∷ s) (suc (length s)),
    length-aud,
  )

strip_prefix-starts_with :
    ⦃ab : Absl⦄ (law : StartsWithLaw ab) (p s : Bytes)
    → ((rest : Bytes) × (ab.starts_with s p ≡ true)
        × (strip_prefix p s ≡ some rest)
        × (s ≡ p ++ rest))
      ⊎ ((ab.starts_with s p ≡ false) × (strip_prefix p s ≡ none))
strip_prefix-starts_with ⦃ab⦄ law p s = elim (Option-cases (strip_prefix p s)) [
  | inl e ↦ elim (Bool-cases (ab.starts_with s p)) [
    | inl t ↦
        let (rest, split) = (law s p).0 t in
        let stripped = (strip_prefix_iff p s rest).1 split in cc
    | inr f ↦ inr (f, e)
  ]
  | inr (rest, e) ↦
      let split = (strip_prefix_iff p s rest).0 e in inl (rest, (law s p).1 (rest, split), e, split)
]

cut_whole :
    (p : Bytes)
    → (p ≡ http_scheme_prefix) ⊎ (p ≡ https_scheme_prefix)
    → cut_audience (p ++ []) (length p) true ≡ some (strip_slash [])
unfolding cut_audience strip_slash
cut_whole p (inl e) = rw e refl
cut_whole p (inr e) = rw e refl

cut_scheme :
    (p rest : Bytes)
    → length (p ++ rest) < 2 ^ 64
    → (p ≡ http_scheme_prefix) ⊎ (p ≡ https_scheme_prefix)
    → cut_audience (p ++ rest) (length p) true ≡ some (strip_slash rest)
unfolding aud
cut_scheme p [] h is_scheme = cut_whole p is_scheme
cut_scheme p (c ∷ s) h is_scheme = cut_lem p c s h true (inl refl)

cut_plain :
    (c : ℕ) (s : Bytes)
    → length (c ∷ s) < 2 ^ 64
    → cut_audience (c ∷ s) 0 false ≡ some (strip_slash (c ∷ s))
unfolding aud
cut_plain c s h = cut_lem [] c s h false (inr refl)

canonical-nil : canonical [] ≡ []
unfolding canonical strip_prefix strip_slash
canonical-nil = refl

module _ ⦃ab : Absl⦄ (law : StartsWithLaw ab) where
  -- Where `StartsWith` tests for a prefix, `sanitizeAudience` does not throw on a text shorter than
  -- 2 ^ 64 and returns the canonical form: the text without the scheme "http://" or "https://" and
  -- without one trailing slash.
  pub sanitize_audience-canonical :
      (s : Bytes) → length s < 2 ^ 64 → sanitize_audience s ≡ some (canonical s)
  unfolding sanitize_audience scheme_end canonical
  sanitize_audience-canonical [] h = ap some (sym canonical-nil)
  sanitize_audience-canonical (c ∷ s) h =
      elim (strip_prefix-starts_with law http_scheme_prefix (c ∷ s)) [
        | inl (rest, a, b, e) ↦
            behind http_scheme_prefix rest (inl refl) e (ground arith) (ground arith)
        | inr n ↦ elim (strip_prefix-starts_with law https_scheme_prefix (c ∷ s)) [
          | inl (rest, a, b, e) ↦
              behind https_scheme_prefix rest (inr refl) e (ground arith) (ground arith)
          | inr m ↦ ground (arith, cut_plain c s)
        ]
      ]
    where
      behind :
          (p rest : Bytes)
          → (p ≡ http_scheme_prefix) ⊎ (p ≡ https_scheme_prefix)
          → c ∷ s ≡ p ++ rest
          → scheme_end (c ∷ s) ≡ (length p, true)
          → strip_scheme (c ∷ s) ≡ rest
          → sanitize_audience (c ∷ s) ≡ some (canonical (c ∷ s))
      behind p rest q e f g =
          let fits : length (p ++ rest) < 2 ^ 64 = rw (← e) h in
          rw (f, g, e) (cut_scheme p rest fits q)
