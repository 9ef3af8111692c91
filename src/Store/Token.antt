-- ===== src/Store/Token.antt =====
-- `randomToken` of worker/store.mjs: random bytes in base64 with the URL alphabet and no padding, and
-- the token pattern of worker/index.mjs.
use Prim.Native.Nat.{◌/◌, ◌%◌}
use rules.Base.{
  ℕ, ◌+◌, ◌-◌, ◌*◌, ◌≤◌, ◌<◌, Bool, true, ◌&&◌, ◌||◌, List, [], ◌∷◌, map, Text, all, length, leb,
  ltb, ◌==◌, if◌then◌else◌, ◌≡◌, refl, arith, Bool-cases, inl, inr,
}

-- The base64 alphabet.
unfoldable pub char64 : ℕ → ℕ
char64 n =
    if ltb n 26
    then b'A' + n
    else if ltb n 52
    then b'a' + (n - 26)
    else if ltb n 62
    then b'0' + (n - 52)
    else if n == 62
    then b'+'
    else b'/'

-- `btoa`, of a string whose characters are bytes
unfoldable pub btoa : List ℕ → Text
btoa [] = []
btoa (a ∷ []) = char64 (a / 4) ∷ char64 (a % 4 * 16) ∷ b'=' ∷ b'=' ∷ []
btoa (a ∷ b ∷ []) = char64 (a / 4) ∷ char64 (a % 4 * 16 + b / 16) ∷ char64 (b % 16 * 4) ∷ b'=' ∷ []
btoa (a ∷ b ∷ c ∷ rest) =
    char64 (a / 4)
    ∷ char64 (a % 4 * 16 + b / 16)
    ∷ char64 (b % 16 * 4 + c / 64)
    ∷ char64 (c % 64)
    ∷ btoa rest

-- `.replace(/\+/g, "-").replace(/\//g, "_")`
unfoldable pub url_char : ℕ → ℕ
url_char c = if c == b'+' then b'-' else if c == b'/' then b'_' else c

strip_cons : ℕ → Text → Text
strip_cons c [] = if c == b'=' then [] else c ∷ []
strip_cons c (d ∷ s) = c ∷ d ∷ s

-- `.replace(/=+$/g, "")`
unfoldable pub strip_padding : Text → Text
unfolding strip_cons
strip_padding [] = []
strip_padding (c ∷ s) = strip_cons c (strip_padding s)

unfoldable pub token_of_bytes : List ℕ → Text
token_of_bytes bytes = strip_padding (map url_char (btoa bytes))

abbrev pub is_token_char : ℕ → Bool
is_token_char c =
    (leb b'A' c && leb c b'Z')
    || (leb b'a' c && leb c b'z')
    || (leb b'0' c && leb c b'9')
    || c == b'_'
    || c == b'-'

-- `TOKEN_RE`, /^[A-Za-z0-9_-]{40,64}$/
unfoldable pub is_token : Text → Bool
is_token s = leb 40 (length s) && leb (length s) 64 && all is_token_char s

url_char-upper : (n : ℕ) → n < 26 → is_token_char (url_char (b'A' + n)) ≡ true
unfolding url_char
url_char-upper n h = ground arith

url_char-lower : (n : ℕ) → n < 26 → is_token_char (url_char (b'a' + n)) ≡ true
unfolding url_char
url_char-lower n h = ground arith

url_char-digit : (n : ℕ) → n < 10 → is_token_char (url_char (b'0' + n)) ≡ true
unfolding url_char
url_char-digit n h = ground arith

char64-is_token_char : (n : ℕ) → is_token_char (url_char (char64 n)) ≡ true
unfolding char64
char64-is_token_char n = elim (Bool-cases (ltb n 26)) [
  | inl upper ↦ rw upper (url_char-upper n (ground arith))
  | inr n₁ ↦ rw n₁ (elim (Bool-cases (ltb n 52)) [
    | inl lower ↦ rw lower (url_char-lower (n - 26) (ground arith))
    | inr n₂ ↦ rw n₂ (elim (Bool-cases (ltb n 62)) [
      | inl digit ↦ rw digit (url_char-digit (n - 52) (ground arith))
      | inr n₃ ↦ rw n₃ (elim (Bool-cases (n == 62)) [
        | inl plus ↦ rw plus (unfold url_char in refl)
        | inr slash ↦ rw slash (unfold url_char in refl)
      ])
    ])
  ])
]

strip_cons_of_char : (c : ℕ) (s : Text) → is_token_char c ≡ true → strip_cons c s ≡ c ∷ s
unfolding strip_cons
strip_cons_of_char c [] h = ground arith
strip_cons_of_char c (d ∷ s) h = refl

-- A character of the alphabet in front stays in front.
char-strip : (n : ℕ) (s : Text) → strip_cons (url_char (char64 n)) s ≡ url_char (char64 n) ∷ s
char-strip n s = strip_cons_of_char (url_char (char64 n)) s (char64-is_token_char n)

abbrev digit64 : ℕ → ℕ
digit64 n = url_char (char64 n)

no_padding : strip_padding (url_char b'=' ∷ []) ≡ []
unfolding strip_padding url_char
no_padding = refl

no_paddings : strip_padding (url_char b'=' ∷ url_char b'=' ∷ []) ≡ []
unfolding strip_padding url_char
no_paddings = refl

char-strip_padding :
    (n : ℕ) (s : Text) → strip_padding (digit64 n ∷ s) ≡ digit64 n ∷ strip_padding s
unfolding strip_padding
char-strip_padding n s = char-strip n (strip_padding s)

-- The token of one, two, and three bytes and more.
token_one : (a : ℕ) → token_of_bytes (a ∷ []) ≡ digit64 (a / 4) ∷ digit64 (a % 4 * 16) ∷ []
unfolding token_of_bytes btoa
token_one a = simp (char-strip_padding, no_paddings)

token_two :
    (a b : ℕ)
    → token_of_bytes (a ∷ b ∷ [])
      ≡ digit64 (a / 4) ∷ digit64 (a % 4 * 16 + b / 16) ∷ digit64 (b % 16 * 4) ∷ []
unfolding token_of_bytes btoa
token_two a b = simp (char-strip_padding, no_padding)

token_three :
    (a b c : ℕ) (rest : List ℕ)
    → token_of_bytes (a ∷ b ∷ c ∷ rest)
      ≡ digit64 (a / 4)
        ∷ digit64 (a % 4 * 16 + b / 16)
        ∷ digit64 (b % 16 * 4 + c / 64)
        ∷ digit64 (c % 64)
        ∷ token_of_bytes rest
unfolding token_of_bytes btoa
token_three a b c rest = simp (char-strip_padding)

token_of_bytes-chars : (bytes : List ℕ) → all is_token_char (token_of_bytes bytes) ≡ true
unfolding all
token_of_bytes-chars [] = unfold token_of_bytes btoa strip_padding in refl
token_of_bytes-chars (a ∷ []) = rw token_one (simp (char64-is_token_char))
token_of_bytes-chars (a ∷ b ∷ []) = rw token_two (simp (char64-is_token_char))
token_of_bytes-chars (a ∷ b ∷ c ∷ rest) =
    rw token_three (simp (char64-is_token_char, token_of_bytes-chars rest))

-- Three bytes give four characters, and a rest of one or two bytes two or three.
length-token_of_bytes :
    (bytes : List ℕ)
    → (4 * length bytes ≤ 3 * length (token_of_bytes bytes))
      × (3 * length (token_of_bytes bytes) ≤ 4 * length bytes + 2)
length-token_of_bytes [] = unfold token_of_bytes btoa strip_padding in omega arith
length-token_of_bytes (a ∷ []) = rw token_one (omega arith)
length-token_of_bytes (a ∷ b ∷ []) = rw token_two (omega arith)
length-token_of_bytes (a ∷ b ∷ c ∷ rest) =
    rw token_three (omega (arith, length-token_of_bytes rest))

-- A token made of 32 random bytes fits the pattern that the request handlers ask of a token, and has
-- 43 characters.
pub token_of_bytes-is_token :
    (bytes : List ℕ)
    → length bytes ≡ 32
    → (is_token (token_of_bytes bytes) ≡ true) × (length (token_of_bytes bytes) ≡ 43)
unfolding is_token
token_of_bytes-is_token bytes h =
    let size : length (token_of_bytes bytes) ≡ 43 = omega (arith, length-token_of_bytes bytes) in
    (rw size (token_of_bytes-chars bytes), size)
