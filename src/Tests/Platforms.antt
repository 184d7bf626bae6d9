-- ===== src/Tests/Platforms.antt =====
-- Functions in place of the libraries that the server calls.
use realynk.Base.{
  ℕ, ◌+◌, ◌≡◌, refl, Bool, true, ◌&&◌, ◌||◌, Option, none, some, List, [], ◌∷◌, ◌++◌, Text, arith,
  ◌==◌, leb, ltb, map, text_eq, if◌then◌else◌, ap,
}
use realynk.Auth.{Jwt, IsSigning, Uuids, IsLawful}
use realynk.Attachments.{Storage, AttachmentConfig}
use realynk.Attachments.Validator.{Platform, Hash}
use realynk.Attachments.Validator.Hashing.{IsStreaming}

abbrev is_upper : ℕ → Bool
is_upper c = leb 65 c && leb c 90

abbrev pub ascii_lower : Text → Text
ascii_lower s = map (λ c. if is_upper c then c + 32 else c) s

abbrev pub ascii_word : ℕ → Bool
ascii_word c = is_upper c || leb 97 c && leb c 122 || leb 48 c && leb c 57 || c == 95

-- A password's hash is the password.
abbrev pub plain : Text → Text
plain password = password

abbrev pub plain_check : Text → Text → Bool
plain_check hash password = text_eq hash password

-- A token is its two times and its subject.
abbrev decoded : ℕ → Text → Option Text
decoded now [] = none
decoded now (iat ∷ []) = none
decoded now (iat ∷ exp ∷ sub) = if leb iat now && ltb now exp then some sub else none

abbrev pub plain_jwt : Jwt
plain_jwt = record { encode = λ sub iat exp. iat ∷ exp ∷ sub; decode = decoded }

pub plain_jwt-IsSigning : IsSigning plain_jwt
plain_jwt-IsSigning = record {
  decode-encode = λ sub iat exp now made soon. ground (arith, made, soon);
}

abbrev parsed : Text → Option ℕ
parsed (id ∷ []) = some id
parsed s = none

abbrev pub plain_uuids : Uuids
plain_uuids = record { show = λ id. id ∷ []; parse = parsed }

pub plain_uuids-IsLawful : IsLawful plain_uuids
plain_uuids-IsLawful = record { parse-show = λ id. refl }

abbrev pub plain_platform : Platform
plain_platform = record { is_word = ascii_word; lower = ascii_lower; guess_type = λ name. none }

append_assoc : (h a b : Text) → (h ++ a) ++ b ≡ h ++ (a ++ b)
append_assoc [] a b = refl
append_assoc (c ∷ h) a b = ap (λ t. c ∷ t) (append_assoc h a b)

append_nil : (h : Text) → h ++ [] ≡ h
append_nil [] = refl
append_nil (c ∷ h) = ap (λ t. c ∷ t) (append_nil h)

-- A digest is the text itself.
abbrev pub plain_hash : Hash
plain_hash = record { State = Text; start = []; update = λ h s. h ++ s; hexdigest = λ h. h }

pub plain_hash-IsStreaming : IsStreaming plain_hash
plain_hash-IsStreaming = record {
  update-append = λ h a b. append_assoc h a b;
  update-nil = λ h. append_nil h;
}

-- The store keeps the paths that it was sent.
abbrev pub shelf : Storage
shelf = record {
  State = List Text;
  upload_file = λ path content mime s. (true, path ∷ s);
  delete_file = λ path s. (true, s);
  create_signed_url = λ path seconds s. some path;
}

abbrev pub small_limits : AttachmentConfig
small_limits = record {
  max_attachment_size_mb = 1;
  max_attachments_per_message = 2;
  max_total_attachment_size_mb = 1;
  signed_url_expires_seconds = 60;
}
