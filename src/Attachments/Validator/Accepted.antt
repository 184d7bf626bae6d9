-- ===== src/Attachments/Validator/Accepted.antt =====
-- What an accepted upload is.
use realynk.Base.{
  ℕ, ◌≤◌, ◌<◌, ◌≡◌, refl, Bool, true, false, Option, none, some, Text, arith, is_empty, length, ltb,
  ◌==◌, if◌then◌else◌,
}
use realynk.Attachments.Filenames.{
  sanitize_filename, IsSafeName, sanitize_filename-IsSafeName, first, extension_of,
}
use realynk.Attachments.Validator.{
  Platform, Hash, FileStorage, ValidatedFile, Validated, value_error, overflow_error, validated,
  allowed_mime_types, allowed_extensions, dangerous_extensions, magic, detect, value_of, has_text,
  or_else, given, is_mismatch, checksum, validate_kind, validate_type, validate_named,
  validate_file,
}

pub record IsAccepted (platform : Platform) (H : Hash) (max_bytes : ℕ) (file : FileStorage)
    (v : ValidatedFile) : Type 0 where
  pub name : IsSafeName platform.is_word (some v.filename)
  pub extension : v.extension ≡ platform.lower (extension_of v.filename)
  pub harmless : has_text v.extension dangerous_extensions ≡ false
  pub size : v.file_size ≡ length file.stream
  pub not_empty : 0 < v.file_size
  pub bounded : v.file_size ≤ max_bytes
  pub kind : value_of v.mime_type allowed_mime_types ≡ some v.attachment_type
  pub fits : has_text v.extension (allowed_extensions v.mime_type) ≡ true
  pub content :
      or_else
        (detect (first 16 file.stream) magic)
        (or_else (given file.mimetype) (platform.guess_type v.filename))
      ≡ some v.mime_type
  pub hashed : v.checksum ≡ checksum H file.stream

abbrev pub Accepts : Platform → Hash → ℕ → Option FileStorage → Validated → Type 0
Accepts platform H max_bytes (some file) (validated v) = IsAccepted platform H max_bytes file v
Accepts platform H max_bytes none (validated v) = ⊥
Accepts platform H max_bytes file value_error = Unit {0}
Accepts platform H max_bytes file overflow_error = Unit {0}

pub record Passes (platform : Platform) (H : Hash) (max_bytes : ℕ) (file : Option FileStorage)
    (r : Validated) : Type 0 where
  pub at : Accepts platform H max_bytes file r

module _ (platform : Platform) (H : Hash) (max_bytes : ℕ) (file : FileStorage) where
  Passes-if :
      (b : Bool) (x y : Validated)
      → (b ≡ true → Passes platform H max_bytes (some file) x)
      → (b ≡ false → Passes platform H max_bytes (some file) y)
      → Passes platform H max_bytes (some file) (if b then x else y)
  Passes-if true x y f g = f refl
  Passes-if false x y f g = g refl

  abbrev detected : Option Text
  detected = detect (first 16 file.stream) magic

  abbrev declared : Text → Option Text
  declared name = or_else (given file.mimetype) (platform.guess_type name)

  abbrev made : Text → Text → Text → ValidatedFile
  made name mime kind = record {
    filename = name;
    extension = platform.lower (extension_of name);
    mime_type = mime;
    attachment_type = kind;
    file_size = length file.stream;
    checksum = checksum H file.stream;
  }

  -- the last test of the name, its type and its size
  abbrev sized : Text → Validated
  sized name =
      validate_type H file name (platform.lower (extension_of name)) detected (declared name)
        (or_else detected (declared name))

  validate_kind-Passes :
      (name mime : Text) (o : Option Text)
      → IsSafeName platform.is_word (some name)
      → has_text (platform.lower (extension_of name)) dangerous_extensions ≡ false
      → 0 < length file.stream
      → length file.stream ≤ max_bytes
      → or_else detected (declared name) ≡ some mime
      → value_of mime allowed_mime_types ≡ o
      → Passes platform H max_bytes (some file) (
          validate_kind H file name
            (platform.lower (extension_of name))
            detected
            (declared name)
            mime
            o)
  unfolding validate_kind
  validate_kind-Passes name mime none safe harmless full small e f = record { at = tt }
  validate_kind-Passes name mime (some kind) safe harmless full small e f =
      Passes-if (is_mismatch detected (declared name)) value_error
        (if has_text (platform.lower (extension_of name)) (allowed_extensions mime)
          then validated (made name mime kind)
          else value_error)
        (λ _. record { at = tt })
        λ _.
          Passes-if (has_text (platform.lower (extension_of name)) (allowed_extensions mime))
            (validated (made name mime kind)) value_error
            (λ fits. record {
              at = record {
                name = safe;
                extension = refl;
                harmless = harmless;
                size = refl;
                not_empty = full;
                bounded = small;
                kind = f;
                fits = fits;
                content = e;
                hashed = refl;
              };
            })
            (λ _. record { at = tt })

  validate_type-Passes :
      (name : Text) (o : Option Text)
      → IsSafeName platform.is_word (some name)
      → has_text (platform.lower (extension_of name)) dangerous_extensions ≡ false
      → 0 < length file.stream
      → length file.stream ≤ max_bytes
      → or_else detected (declared name) ≡ o
      → Passes platform H max_bytes (some file) (
          validate_type H file name (platform.lower (extension_of name)) detected (declared name) o)
  unfolding validate_type
  validate_type-Passes name none safe harmless full small e = record { at = tt }
  validate_type-Passes name (some mime) safe harmless full small e =
      validate_kind-Passes name mime (value_of mime allowed_mime_types) safe harmless full small e
        refl

  validate_named-Passes :
      (o : Option Text)
      → IsSafeName platform.is_word o
      → Passes platform H max_bytes (some file) (validate_named platform H file max_bytes o)
  validate_named-Passes none safe = record { at = tt }
  validate_named-Passes (some name) safe =
      Passes-if (has_text (platform.lower (extension_of name)) dangerous_extensions) value_error
        (if length file.stream == 0
          then value_error
          else if ltb max_bytes (length file.stream)
          then overflow_error
          else sized name)
        (λ _. record { at = tt })
        λ harmless.
          Passes-if (length file.stream == 0) value_error
            (if ltb max_bytes (length file.stream) then overflow_error else sized name)
            (λ _. record { at = tt })
            λ full.
              Passes-if (ltb max_bytes (length file.stream)) overflow_error (sized name)
                (λ _. record { at = tt })
                λ small.
                  validate_type-Passes name (or_else detected (declared name)) safe harmless
                    (ground (arith, full)) (ground (arith, small)) refl

-- Whatever a client sends, an upload that is accepted has a safe name, a type that is allowed and
-- that its content shows where the content has a known signature, an extension of that type that is
-- not one of the dangerous ones, a positive size up to the limit, and the checksum of its content.
pub validate_file-Passes :
    (platform : Platform) (H : Hash) (file : Option FileStorage) (max_bytes : ℕ)
    → Passes platform H max_bytes file (validate_file platform H file max_bytes)
unfolding validate_file
validate_file-Passes platform H none max_bytes = record { at = tt }
validate_file-Passes platform H (some file) max_bytes =
    Passes-if platform H max_bytes file (is_empty file.filename) value_error
      (validate_named platform H file max_bytes (sanitize_filename platform.is_word file.filename))
      (λ _. record { at = tt })
      λ _.
        validate_named-Passes platform H max_bytes file
          (sanitize_filename platform.is_word file.filename)
          (sanitize_filename-IsSafeName platform.is_word file.filename)
