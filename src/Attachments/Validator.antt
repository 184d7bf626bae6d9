-- ===== src/Attachments/Validator.antt =====
-- app/validators/attachment_validator.py. Parameters: `Hash`, the SHA-256 object of hashlib with its
-- `update`; `Platform`, the character class `\w`, `str.lower` and `mimetypes.guess_type`.
pub mod Hashing
pub mod Accepted
use realynk.Base.{
  ℕ, zero, suc, ◌+◌, ◌*◌, ◌≡◌, Bool, true, false, not, ◌&&◌, ◌||◌, Option, none, some, List, [],
  ◌∷◌, ◌++◌, Text, codes, ◌==◌, any, if◌then◌else◌, is_empty, length, ltb, text_eq, starts_with,
  is_some,
}
use realynk.Attachments.Filenames.{sanitize_filename, extension_of, first}

pub record Platform : Type 0 where
  pub is_word : ℕ → Bool
  pub lower : Text → Text
  pub guess_type : Text → Option Text

pub record Hash : Type 1 where
  pub State : Type 0
  pub start : State
  pub update : State → Text → State
  pub hexdigest : State → Text

-- `file` with its stream; `mimetype` is empty where the client declared none
pub record FileStorage : Type 0 where
  pub filename : Text
  pub mimetype : Text
  pub stream : Text

pub record ValidatedFile : Type 0 where
  pub filename : Text
  pub extension : Text
  pub mime_type : Text
  pub attachment_type : Text
  pub file_size : ℕ
  pub checksum : Text

-- what `validate_file` raises or returns
pub data Validated : Type 0 where
  value_error overflow_error : Validated
  validated : ValidatedFile → Validated

-- the value of a key in a dict with text keys
abbrev pub value_of : Text → List (Text × Text) → Option Text
value_of key [] = none
value_of key ((k, v) ∷ rest) = if text_eq k key then some v else value_of key rest

abbrev pub has_text : Text → List Text → Bool
has_text s ts = any (λ t. text_eq t s) ts

-- `ALLOWED_MIME_TYPES`
unfoldable pub allowed_mime_types : List (Text × Text)
allowed_mime_types =
    (codes "image/jpeg", codes "image")
    ∷ (codes "image/png", codes "image")
    ∷ (codes "image/gif", codes "image")
    ∷ (codes "image/webp", codes "image")
    ∷ (codes "application/pdf", codes "document")
    ∷ (codes "text/plain", codes "document")
    ∷ (codes "application/json", codes "document")
    ∷ (codes "application/zip", codes "document")
    ∷ (codes "audio/mpeg", codes "audio")
    ∷ (codes "audio/wav", codes "audio")
    ∷ (codes "audio/ogg", codes "audio")
    ∷ (codes "audio/webm", codes "audio")
    ∷ (codes "video/mp4", codes "video")
    ∷ (codes "video/webm", codes "video")
    ∷ (codes "video/quicktime", codes "video")
    ∷ []

abbrev extensions_in : Text → List (Text × List Text) → List Text
extensions_in key [] = []
extensions_in key ((k, v) ∷ rest) = if text_eq k key then v else extensions_in key rest

-- `ALLOWED_EXTENSIONS.get(mime_type, set())`
unfoldable pub allowed_extensions : Text → List Text
allowed_extensions mime_type = extensions_in mime_type (
    (codes "image/jpeg", codes ".jpg" ∷ codes ".jpeg" ∷ [])
    ∷ (codes "image/png", codes ".png" ∷ [])
    ∷ (codes "image/gif", codes ".gif" ∷ [])
    ∷ (codes "image/webp", codes ".webp" ∷ [])
    ∷ (codes "application/pdf", codes ".pdf" ∷ [])
    ∷ (codes "text/plain", codes ".txt" ∷ codes ".text" ∷ [])
    ∷ (codes "application/json", codes ".json" ∷ [])
    ∷ (codes "application/zip", codes ".zip" ∷ [])
    ∷ (codes "audio/mpeg", codes ".mp3" ∷ [])
    ∷ (codes "audio/wav", codes ".wav" ∷ [])
    ∷ (codes "audio/ogg", codes ".ogg" ∷ [])
    ∷ (codes "audio/webm", codes ".webm" ∷ [])
    ∷ (codes "video/mp4", codes ".mp4" ∷ [])
    ∷ (codes "video/webm", codes ".webm" ∷ [])
    ∷ (codes "video/quicktime", codes ".mov" ∷ [])
    ∷ [])

-- `DANGEROUS_EXTENSIONS`
unfoldable pub dangerous_extensions : List Text
dangerous_extensions =
    codes ".exe"
    ∷ codes ".bat"
    ∷ codes ".cmd"
    ∷ codes ".com"
    ∷ codes ".scr"
    ∷ codes ".ps1"
    ∷ codes ".sh"
    ∷ codes ".php"
    ∷ codes ".py"
    ∷ codes ".js"
    ∷ codes ".vbs"
    ∷ codes ".jar"
    ∷ codes ".msi"
    ∷ codes ".svg"
    ∷ []

-- `MAGIC`
unfoldable pub magic : List (Text × Text)
magic =
    (0xff ∷ 0xd8 ∷ 0xff ∷ [], codes "image/jpeg")
    ∷ (0x89 ∷ 80 ∷ 78 ∷ 71 ∷ 13 ∷ 10 ∷ 0x1a ∷ 10 ∷ [], codes "image/png")
    ∷ (codes "GIF87a", codes "image/gif")
    ∷ (codes "GIF89a", codes "image/gif")
    ∷ (codes "%PDF-", codes "application/pdf")
    ∷ (80 ∷ 75 ∷ 3 ∷ 4 ∷ [], codes "application/zip")
    ∷ []

-- `next((mime for signature, mime in MAGIC.items() if sample.startswith(signature)), None)`
abbrev pub detect : Text → List (Text × Text) → Option Text
detect sample [] = none
detect sample ((signature, mime) ∷ rest) =
    if starts_with signature sample then some mime else detect sample rest

-- `a or b` for texts that may be missing
abbrev pub or_else : Option Text → Option Text → Option Text
or_else none b = b
or_else (some a) b = if is_empty a then b else some a

abbrev pub given : Text → Option Text
given s = some s

-- `detected and declared and declared != detected and not (…)`
abbrev pub is_mismatch : Option Text → Option Text → Bool
is_mismatch (some detected) (some declared) =
    not (is_empty detected)
    && not (is_empty declared)
    && not (text_eq declared detected)
    && not (
        text_eq detected (codes "application/zip")
        && text_eq declared
            (codes "application/vnd.openxmlformats-officedocument.wordprocessingml.document"))
is_mismatch detected declared = false

unfoldable pub chunk_size : ℕ
chunk_size = 1024 * 1024

-- what `stream.read(n)` leaves to read
abbrev pub behind : ℕ → Text → Text
behind zero s = s
behind (suc n) [] = []
behind (suc n) (c ∷ s) = behind n s

-- `while True: chunk = stream.read(size); if not chunk: break; digest.update(chunk)`, on fuel: none
-- where the fuel runs out
unfoldable pub digest_chunks : (H : Hash) → ℕ → ℕ → H.State → Text → Option H.State
digest_chunks H zero size h s = none
digest_chunks H (suc fuel) size h s =
    let rest = digest_chunks H fuel size (H.update h (first size s)) (behind size s) in
    if is_empty (first size s) then some h else rest

-- one round for each byte is more than enough
abbrev pub fuel_for : Text → ℕ
fuel_for s = suc (length s)

abbrev pub digest_of : (H : Hash) → Option H.State → Text
digest_of H none = []
digest_of H (some h) = H.hexdigest h

unfoldable pub checksum : Hash → Text → Text
unfolding digest_chunks
checksum H s = digest_of H (digest_chunks H (fuel_for s) chunk_size H.start s)

-- the end of `validate_file`, for a type that may be allowed, with its group in the table
unfoldable pub validate_kind :
    Hash → FileStorage → Text → Text → Option Text → Option Text → Text → Option Text → Validated
unfolding checksum
validate_kind H file name extension detected declared mime none = value_error
validate_kind H file name extension detected declared mime (some kind) =
    if is_mismatch detected declared
    then value_error
    else if has_text extension (allowed_extensions mime)
    then validated (record {
      filename = name;
      extension = extension;
      mime_type = mime;
      attachment_type = kind;
      file_size = length file.stream;
      checksum = checksum H file.stream;
    })
    else value_error

-- the test of the type, which may be missing
unfoldable pub validate_type :
    Hash → FileStorage → Text → Text → Option Text → Option Text → Option Text → Validated
unfolding validate_kind
validate_type H file name extension detected declared none = value_error
validate_type H file name extension detected declared (some mime) =
    validate_kind H file name extension detected declared mime (value_of mime allowed_mime_types)

abbrev pub validate_named : Platform → Hash → FileStorage → ℕ → Option Text → Validated
validate_named platform H file max_bytes none = value_error
validate_named platform H file max_bytes (some name) =
    let extension = platform.lower (extension_of name) in
    if has_text extension dangerous_extensions
    then value_error
    else if length file.stream == 0
    then value_error
    else if ltb max_bytes (length file.stream)
    then overflow_error
    else let detected = detect (first 16 file.stream) magic in
      let declared = or_else (given file.mimetype) (platform.guess_type name) in
      validate_type H file name extension detected declared (or_else detected declared)

-- `if not file or not file.filename`, and the rest
unfoldable pub validate_file : Platform → Hash → Option FileStorage → ℕ → Validated
unfolding validate_type
validate_file platform H none max_bytes = value_error
validate_file platform H (some file) max_bytes =
    if is_empty file.filename
    then value_error
    else validate_named platform H file max_bytes (sanitize_filename platform.is_word file.filename)
