-- ===== src/Config/SqliteUrl.antt =====
-- What a database URL that names a file looks like.
use aiot_powerguard.Prelude.{
  ℕ, ◌≡◌, ◌≢◌, refl, sym, ap, ◌∙◌, Bool, false, Option, none, some, [], ◌∷◌, ◌++◌, ◌==◌, nat_eq,
  list_eq, option_eq, contains, arith, subst, append_assoc, ◌⊎◌, inl, inr, Option-cases, Bool-cases,
}
use aiot_powerguard.Text.{Text, codes}
use aiot_powerguard.Config.{
  file, strip_prefix, rest_of_line, after_newline, with_driver, ends_in_separator, span_driver,
  with_rest, url_parts, check_tail, check_rest, check_parts, parse_sqlite_url,
}

strip_prefix_sound : (p t : Text) (r : Text) → strip_prefix p t ≡ some r → t ≡ p ++ r
unfolding strip_prefix
strip_prefix_sound [] t r h = ground arith
strip_prefix_sound (c ∷ s) [] r h = cc
strip_prefix_sound (c ∷ s) (d ∷ t) r h = ground (arith, strip_prefix_sound s t r)

span_driver_sound : (t : Text) → t ≡ (span_driver t).0 ++ (span_driver t).1
unfolding span_driver
span_driver_sound [] = refl
span_driver_sound (c ∷ s) = ground (arith, span_driver_sound s)

-- `t` is the line `r`, and perhaps a newline behind it
abbrev pub IsLine : Text → Text → Type 0
IsLine t r = ((t ≡ r) ⊎ (t ≡ r ++ 10 ∷ [])) × (contains r 10 ≡ false)

newline-IsLine : (c : ℕ) (s r : Text) → c ≡ 10 → after_newline s ≡ some r → IsLine (c ∷ s) r
newline-IsLine c [] r e h = ground arith
newline-IsLine c (d ∷ s) r e h = absurd cc

cons-IsLine : (c : ℕ) (s q r : Text) → c ≢ 10 → r ≡ c ∷ q → IsLine s q → IsLine (c ∷ s) r
cons-IsLine c s q r n e (inl k, clean) = (inl (ap (λ t. c ∷ t) k ∙ sym e), ground arith)
cons-IsLine c s q r n e (inr k, clean) =
    (inr (ap (λ t. c ∷ t) k ∙ ap (λ t. t ++ 10 ∷ []) (sym e)), ground arith)

rest_of_line-IsLine : (t r : Text) → rest_of_line t ≡ some r → IsLine t r
unfolding rest_of_line
rest_of_line-IsLine [] r h = ground arith
rest_of_line-IsLine (c ∷ s) r h = elim (Bool-cases (c == 10)) [
  | inl e ↦ newline-IsLine c s r (ground arith) (ground arith)
  | inr e ↦ elim (Option-cases (rest_of_line s)) [
    | inl k ↦ absurd (ground arith)
    | inr (q, k) ↦ cons-IsLine c s q r (ground arith) (ground arith) (rest_of_line-IsLine s q k)
  ]
]

-- What a tail that names a file satisfies.
pub record IsFileName (is_dir : Text → Bool) (tail : Text) : Type 0 where
  pub not_empty : tail ≢ []
  pub not_uri : strip_prefix (codes "file:") tail ≡ none
  pub no_null : contains tail 0 ≡ false
  pub no_query : contains tail b'?' ≡ false
  pub no_separator : ends_in_separator tail ≡ false
  pub no_directory : is_dir tail ≡ false

check_tail-IsFileName :
    (is_dir : Text → Bool) (t tail : Text)
    → check_tail is_dir t ≡ file tail
    → (t ≡ tail) × IsFileName is_dir tail
unfolding check_tail
check_tail-IsFileName is_dir t tail h = ground arith

check_rest-IsFileName :
    (is_dir : Text → Bool) (r tail : Text)
    → check_rest is_dir r ≡ file tail
    → (r ≡ b'/' ∷ tail) × IsFileName is_dir tail
unfolding check_rest
check_rest-IsFileName is_dir [] tail h = absurd cc
check_rest-IsFileName is_dir (c ∷ t) tail h =
    let (e, ok) = check_tail-IsFileName is_dir t tail (ground arith) in (ground arith, ok)

with_rest_sound :
    (d : Option Text) (m : Option Text) (driver : Option Text) (r : Text)
    → with_rest d m ≡ some (driver, r)
    → (driver ≡ d) × ((t : Text) × (m ≡ some t) × IsLine t r)
with_rest_sound d none driver r h = absurd cc
with_rest_sound d (some t) driver r h = elim (Option-cases (rest_of_line t)) [
  | inl e ↦ absurd (ground arith)
  | inr (q, e) ↦ (ground arith, (t, refl, rest_of_line-IsLine t r (ground arith)))
]

-- the text between `sqlite` and the rest
abbrev pub scheme_end : Option Text → Text
scheme_end none = codes "://"
scheme_end (some d) = b'+' ∷ d ++ codes "://"

-- `t` is the end of the scheme, and then the line `r`
abbrev Parts : Text → Option Text → Text → Type 0
Parts t driver r = (u : Text) × (t ≡ scheme_end driver ++ u) × IsLine u r

with_driver_sound :
    (p : Text × Text) (driver : Option Text) (r : Text)
    → with_driver p ≡ some (driver, r)
    → (driver ≡ some p.0) × ((u : Text) × (p.1 ≡ codes "://" ++ u) × IsLine u r)
with_driver_sound ([], behind) driver r h = absurd cc
with_driver_sound (c ∷ s, behind) driver r h =
    let (e, (u, k, line)) =
      with_rest_sound (some (c ∷ s)) (strip_prefix (codes "://") behind) driver r h in
    (e, (u, strip_prefix_sound (codes "://") behind u k, line))

-- a driver behind its plus sign, and the rest of the scheme
scheme_joined :
    (c : ℕ) (s d b u : Text)
    → c ≡ b'+'
    → s ≡ d ++ b
    → b ≡ codes "://" ++ u
    → c ∷ s ≡ scheme_end (some d) ++ u
scheme_joined c s d b u e k m =
    ap (λ x. x ∷ s) e
    ∙ ap (λ w. b'+' ∷ w) (k ∙ ap (λ w. d ++ w) m ∙ sym (append_assoc d (codes "://") u))

url_parts-Parts :
    (t : Text) (driver : Option Text) (r : Text) → url_parts t ≡ some (driver, r) → Parts t driver r
unfolding url_parts
url_parts-Parts [] driver r h = absurd cc
url_parts-Parts (c ∷ s) driver r h = elim (Bool-cases (c == b'+')) [
  | inl e ↦
      let (d, (u, k, line)) = with_driver_sound (span_driver s) driver r (ground arith) in
      let joined =
        scheme_joined c s (span_driver s).0 (span_driver s).1 u (ground arith) (span_driver_sound s)
          k in
      (u, joined ∙ ap (λ o. scheme_end o ++ u) (sym d), line)
  | inr e ↦
      let (d, (u, k, line)) =
        with_rest_sound none (strip_prefix (codes "://") (c ∷ s)) driver r (ground arith) in
      (u, strip_prefix_sound (codes "://") (c ∷ s) u k ∙ ap (λ o. scheme_end o ++ u) (sym d), line)
]

-- A URL that names a file in the form that SQLite's URLs have.
pub record NamesFile (is_dir : Text → Bool) (value tail : Text) : Type 0 where
  pub start : Text
  pub line : Text
  pub supported : (start ≡ codes "sqlite://") ⊎ (start ≡ codes "sqlite+pysqlite://")
  pub whole : value ≡ start ++ line
  pub path : IsLine line (b'/' ∷ tail)
  pub file_name : IsFileName is_dir tail

Parts-NamesFile :
    (is_dir : Text → Bool) (value t tail : Text) (driver : Option Text) (r : Text)
    → value ≡ codes "sqlite" ++ t
    → Parts t driver r
    → check_parts is_dir (some (driver, r)) ≡ file tail
    → NamesFile is_dir value tail
unfolding check_parts
Parts-NamesFile is_dir value t tail none r e (u, k, line) h =
    let (path, ok) = check_rest-IsFileName is_dir r tail h in
    record {
      start = codes "sqlite://";
      line = u;
      supported = inl refl;
      whole = e ∙ ap (λ w. codes "sqlite" ++ w) k;
      path = subst (IsLine u) path line;
      file_name = ok;
    }
Parts-NamesFile is_dir value t tail (some d) r e (u, k, line) h =
    let known : d ≡ codes "pysqlite" = ground arith in
    let (path, ok) = check_rest-IsFileName is_dir r tail (ground arith) in
    record {
      start = codes "sqlite+pysqlite://";
      line = u;
      supported = inr refl;
      whole = e ∙ ap (λ w. codes "sqlite" ++ w) (k ∙ ap (λ x. scheme_end (some x) ++ u) known);
      path = subst (IsLine u) path line;
      file_name = ok;
    }

-- A URL that is taken to name a file is `sqlite://` or `sqlite+pysqlite://`, a slash and that
-- file's name, and perhaps a final newline; the name is not empty, is no `file:` URI, has no null
-- byte, question mark or newline, does not end in a separator, and is no existing directory.
pub parse_sqlite_url-NamesFile :
    (is_dir : Text → Bool) (value tail : Text)
    → parse_sqlite_url is_dir value ≡ file tail
    → NamesFile is_dir value tail
unfolding parse_sqlite_url check_parts
parse_sqlite_url-NamesFile is_dir value tail h =
    elim (Option-cases (strip_prefix (codes "sqlite") value)) [
      | inl e ↦ absurd (ground arith)
      | inr (t, e) ↦ elim (Option-cases (url_parts t)) [
        | inl k ↦ absurd (ground arith)
        | inr ((driver, r), k) ↦
            Parts-NamesFile is_dir value t tail driver r
              (strip_prefix_sound (codes "sqlite") value t e) (url_parts-Parts t driver r k)
              (ground arith)
      ]
    ]
