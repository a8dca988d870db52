-- ===== src/Database/Like.antt =====
-- The LIKE patterns of internal/database/metadata.go, internal/service/directory/manager.go and
-- internal/service/filelist/service.go, with ESCAPE '\'. `fold` is what the database compares of a
-- character: SQLite ignores the case of ASCII letters, PostgreSQL does not.
use Prim.Native.Char.{Char, code}
use Prim.Native.String.{[] as []ˢ, ◌∷◌ as ◌∷ˢ◌, ◌++◌}
use text.Mathlib.TextLemmas.{cons-append}
use fssvrgo.Prelude.{
  inr, ap, inl, ◌∙◌, Bool-cases, ℕ, Bool, true, false, ◌&&◌, ◌||◌, String, List, [], ◌∷◌, ◌==◌,
  str_eq, if◌then◌else◌, ◌≡◌, refl, arith,
}

-- One strings.ReplaceAll of escapeLikePattern, by the code of the character
unfoldable pub escape_char : ℕ → String → String
escape_char n []ˢ = []ˢ
escape_char n (c ∷ˢ s) =
    let rest = escape_char n s in if code c == n then "\\" ∷ˢ c ∷ˢ rest else c ∷ˢ rest

-- escapeLikePattern
unfoldable pub escape_like_pattern : String → String
unfolding escape_char
escape_like_pattern s = escape_char 95 (escape_char 37 (escape_char 92 s))

-- A pattern, read: `%`, `_` and a character that stands for itself.
pub data Token : Type 0 where
  any_text any_one : Token
  exactly : Char → Token

unfoldable pub tokens : Bool → String → List Token
tokens escaped []ˢ = []
tokens escaped (c ∷ˢ s) =
    let plain = tokens false s in
    let after_escape = tokens true s in
    if escaped
    then exactly c ∷ plain
    else if code c == 92
    then after_escape
    else if code c == 37
    then any_text ∷ plain
    else if code c == 95
    then any_one ∷ plain
    else exactly c ∷ plain

unfoldable pub any_suffix : (String → Bool) → String → Bool
any_suffix test []ˢ = test []ˢ
any_suffix test (c ∷ˢ s) = let later = any_suffix test s in test (c ∷ˢ s) || later

unfoldable pub matches : (ℕ → ℕ) → List Token → String → Bool
unfolding any_suffix
matches fold [] text = str_eq text ""
matches fold (any_text ∷ ts) text = any_suffix (matches fold ts) text
matches fold (any_one ∷ ts) []ˢ = false
matches fold (any_one ∷ ts) (d ∷ˢ text) = matches fold ts text
matches fold (exactly c ∷ ts) []ˢ = false
matches fold (exactly c ∷ ts) (d ∷ˢ text) =
    let rest = matches fold ts text in fold (code c) == fold (code d) && rest

-- text LIKE pattern ESCAPE '\'
unfoldable pub like : (ℕ → ℕ) → String → String → Bool
unfolding tokens matches
like fold pattern text = matches fold (tokens false pattern) text

-- An independent description: the characters of the prefix stand at the front of the text.
abbrev pub has_prefix : (ℕ → ℕ) → String → String → Bool
has_prefix fold []ˢ text = true
has_prefix fold (c ∷ˢ s) []ˢ = false
has_prefix fold (c ∷ˢ s) (d ∷ˢ text) =
    let rest = has_prefix fold s text in fold (code c) == fold (code d) && rest

-- The pattern of a prefix, read as it is meant.
abbrev prefix_tokens : String → List Token
prefix_tokens []ˢ = any_text ∷ []
prefix_tokens (c ∷ˢ s) = exactly c ∷ prefix_tokens s

any_suffix-empty : (text : String) → any_suffix (λ t. str_eq t "") text ≡ true
unfolding any_suffix
any_suffix-empty []ˢ = ground arith
any_suffix-empty (c ∷ˢ s) = ground (arith, any_suffix-empty s)

matches-prefix_tokens :
    (fold : ℕ → ℕ) (p text : String) → matches fold (prefix_tokens p) text ≡ has_prefix fold p text
unfolding matches
matches-prefix_tokens fold []ˢ text = any_suffix-empty text
matches-prefix_tokens fold (c ∷ˢ p) []ˢ = refl
matches-prefix_tokens fold (c ∷ˢ p) (d ∷ˢ text) = ground (arith, matches-prefix_tokens fold p text)

escape_char-hit :
    (n : ℕ) (c : Char) (s : String)
    → (code c == n) ≡ true
    → escape_char n (c ∷ˢ s) ≡ "\\" ∷ˢ c ∷ˢ escape_char n s
unfolding escape_char
escape_char-hit n c s h = rw h refl

escape_char-miss :
    (n : ℕ) (c : Char) (s : String)
    → (code c == n) ≡ false
    → escape_char n (c ∷ˢ s) ≡ c ∷ˢ escape_char n s
unfolding escape_char
escape_char-miss n c s h = rw h refl

-- The backslash that one replacement writes is left alone by the later two.
escape_char-backslash :
    (n : ℕ) (s : String) → (92 == n) ≡ false → escape_char n ("\\" ∷ˢ s) ≡ "\\" ∷ˢ escape_char n s
escape_char-backslash n s h = escape_char-miss n "\\" s h

tokens-plain :
    (c : Char) (s t : String)
    → (code c == 92) ≡ false
    → (code c == 37) ≡ false
    → (code c == 95) ≡ false
    → tokens false ((c ∷ˢ s) ++ t) ≡ exactly c ∷ tokens false (s ++ t)
unfolding tokens
tokens-plain c s t h i j = rw (cons-append c s t, h, i, j) refl

tokens-escaped :
    (c : Char) (s t : String)
    → tokens false (("\\" ∷ˢ c ∷ˢ s) ++ t) ≡ exactly c ∷ tokens false (s ++ t)
unfolding tokens
tokens-escaped c s t = rw (cons-append "\\" (c ∷ˢ s) t, cons-append c s t) refl

-- One character of a prefix becomes one token.
tokens-escape_here :
    (c : Char) (p : String)
    → tokens false (escape_like_pattern (c ∷ˢ p) ++ "%")
      ≡ exactly c ∷ tokens false (escape_like_pattern p ++ "%")
unfolding escape_like_pattern
tokens-escape_here c p = elim (Bool-cases (code c == 92)) [
  | inl h ↦
      let i : (code c == 37) ≡ false = ground arith in
      let j : (code c == 95) ≡ false = ground arith in
      simp (
        escape_char-hit 92 c p h,
        escape_char-backslash,
        escape_char-miss 37 c _ i,
        escape_char-miss 95 c _ j,
        tokens-escaped,
      )
  | inr h ↦ elim (Bool-cases (code c == 37)) [
    | inl i ↦
        let j : (code c == 95) ≡ false = ground arith in
        simp (
          escape_char-miss 92 c p h,
          escape_char-hit 37 c _ i,
          escape_char-backslash,
          escape_char-miss 95 c _ j,
          tokens-escaped,
        )
    | inr i ↦ elim (Bool-cases (code c == 95)) [
      | inl j ↦ simp (
        escape_char-miss 92 c p h,
        escape_char-miss 37 c _ i,
        escape_char-hit 95 c _ j,
        tokens-escaped,
      )
      | inr j ↦ simp (
        escape_char-miss 92 c p h,
        escape_char-miss 37 c _ i,
        escape_char-miss 95 c _ j,
        tokens-plain c _ _ h i j,
      )
    ]
  ]
]

tokens-escape : (p : String) → tokens false (escape_like_pattern p ++ "%") ≡ prefix_tokens p
tokens-escape []ˢ = unfold escape_like_pattern escape_char tokens in refl
tokens-escape (c ∷ˢ p) = tokens-escape_here c p ∙ ap (λ ts. exactly c ∷ ts) (tokens-escape p)

-- A text that begins with the prefix has it, whatever the database folds.
pub has_prefix_self : (fold : ℕ → ℕ) (p rest : String) → has_prefix fold p (p ++ rest) ≡ true
has_prefix_self fold []ˢ rest = refl
has_prefix_self fold (c ∷ˢ p) rest =
    rw (cons-append c p rest) (ground (arith, has_prefix_self fold p rest))

-- Whatever characters a prefix has, also %, _ and the backslash, the pattern of its escaped form and %
-- matches the texts that begin with it, character by character as the database compares them: of each
-- character it compares what `fold` gives, which for PostgreSQL is the character itself and for SQLite
-- forgets the case of an ASCII letter.
pub like-escape :
    (fold : ℕ → ℕ) (p text : String)
    → like fold (escape_like_pattern p ++ "%") text ≡ has_prefix fold p text
unfolding like
like-escape fold p text = rw (tokens-escape p) (matches-prefix_tokens fold p text)
