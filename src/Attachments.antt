-- ===== src/Attachments.antt =====
-- app/services/attachment_service.py and app/repositories/attachment_repository.py. The object store
-- behind app/storage/supabase_storage.py is the parameter `Storage`: each call tells whether it
-- raised no `StorageError`, and leaves the store in some state. A call of the service takes the
-- database and the store, and returns them beside its result.
pub mod Filenames
pub mod Validator
pub mod Checks
pub mod Limits
pub mod Uploads
use realynk.Base.{
  ℕ, ◌+◌, ◌*◌, Bool, true, false, not, ◌&&◌, ◌||◌, Option, none, some, List, [], ◌∷◌, ◌++◌, Text,
  codes, ◌==◌, find, filter, count, sum_by, is_some, leb, ltb, update_where, if◌then◌else◌,
}
use realynk.Models.{Db, User, Message, Attachment}
use realynk.Session.{
  Action, Engine, Exn, Result, ok, err, message_error, attachment_error, attachment_access_denied,
  attachment_too_large, invalid_attachment, attachment_limit_exceeded, attachment_upload_failed,
  attachment_not_found, attachment_access_failed, attachment_delete_forbidden,
  attachment_delete_failed, storage_error, pure, gets, fetch, lift, raise_if, modify, catch, commit,
  commit_or, ◌>>=◌, ◌>>◌,
}
use realynk.Messages.{get_message_for_user}
use realynk.Attachments.Validator.{
  Platform, Hash, FileStorage, ValidatedFile, Validated, value_error, overflow_error, validated,
  validate_file,
}

pub record Storage : Type 1 where
  pub State : Type 0
  pub upload_file : Text → Text → Text → State → Bool × State
  pub delete_file : Text → State → Bool × State
  pub create_signed_url : Text → ℕ → State → Option Text

pub record AttachmentConfig : Type 0 where
  pub max_attachment_size_mb : ℕ
  pub max_attachments_per_message : ℕ
  pub max_total_attachment_size_mb : ℕ
  pub signed_url_expires_seconds : ℕ

abbrev pub is_attached : ℕ → Attachment → Bool
is_attached message_id a = (a.message_id == message_id) && not (is_some a.deleted_at)

abbrev pub get_attachment_row : ℕ → Db → Option Attachment
get_attachment_row attachment_id d = find (λ a. a.id == attachment_id) d.attachments

abbrev pub count_for_message : ℕ → Db → ℕ
count_for_message message_id d = count (is_attached message_id) d.attachments

abbrev pub size_if : ℕ → Attachment → ℕ
size_if message_id a = if is_attached message_id a then a.file_size else 0

abbrev pub total_size_for_message : ℕ → Db → ℕ
total_size_for_message message_id d = sum_by (size_if message_id) d.attachments

-- `except MessageError`
abbrev pub access_denied : Exn → Exn
access_denied (message_error code status) = attachment_error attachment_access_denied 403
access_denied e = e

abbrev pub attachment_missing : Exn → Exn
attachment_missing (message_error code status) = attachment_error attachment_not_found 404
attachment_missing e = e

abbrev pub checked_file : Validated → Result ValidatedFile
checked_file value_error = err (attachment_error invalid_attachment 422)
checked_file overflow_error = err (attachment_error attachment_too_large 413)
checked_file (validated v) = ok v

abbrev pub megabytes : ℕ → ℕ
megabytes n = n * 1024 * 1024

-- `upload_attachment` up to the new row
unfoldable pub check_upload :
    Platform
    → Hash
    → AttachmentConfig
    → ℕ
    → User
    → ℕ
    → Option FileStorage
    → Action (ValidatedFile × Message)
check_upload platform H config now user message_id file = do
  message ← catch (get_message_for_user now user.id message_id) access_denied
  raise_if (is_some message.deleted_at) (attachment_error attachment_access_denied 409)
  v ← lift (checked_file (validate_file platform H file (megabytes config.max_attachment_size_mb)))
  total_count ← gets (count_for_message message_id)
  raise_if (leb config.max_attachments_per_message total_count)
      (attachment_error attachment_limit_exceeded 409)
  current_total ← gets (total_size_for_message message_id)
  raise_if (ltb (megabytes config.max_total_attachment_size_mb) (current_total + v.file_size))
      (attachment_error attachment_limit_exceeded 413)
  pure (v, message)

-- f"attachments/{message_id}/{uuid.uuid4()}{validated.extension}", for the two ids as texts
abbrev pub storage_path_of : Text → Text → ValidatedFile → Text
storage_path_of message file_id v =
    codes "attachments/" ++ message ++ codes "/" ++ file_id ++ v.extension

abbrev pub new_attachment : ℕ → ℕ → Text → Text → User → ℕ → ValidatedFile → Attachment
new_attachment id now message file_id user message_id v = record {
  id = id;
  message_id = message_id;
  uploader_id = user.id;
  original_filename = v.filename;
  storage_path = storage_path_of message file_id v;
  mime_type = v.mime_type;
  file_size = v.file_size;
  extension = v.extension;
  attachment_type = v.attachment_type;
  checksum = some v.checksum;
  created_at = now;
  deleted_at = none;
}

abbrev pub add_attachment : Attachment → Db → Db
add_attachment a d = record d { attachments = a ∷ d.attachments }

-- the row and its commit; any exception of it becomes the one of the service
unfoldable pub save : Engine → Attachment → Action (Unit {0})
save engine a = do
  modify (add_attachment a)
  commit_or engine (attachment_error attachment_upload_failed 500)

abbrev pub content_of : Option FileStorage → Text
content_of none = []
content_of (some file) = file.stream

module _ (S : Storage) where
  -- the end of `upload_attachment`: a row that is not saved has its object deleted, and a failure of
  -- the deletion is only logged
  abbrev pub saved :
      Attachment
      → Message
      → Result (Unit {0}) × Db
      → S.State
      → Result (Attachment × Message) × Db × S.State
  saved a message (ok _, d) s = (ok (a, message), d, s)
  saved a message (err e, d) s = (err e, d, (S.delete_file a.storage_path s).1)

  abbrev pub stored :
      Engine
      → Attachment
      → Message
      → Bool × S.State
      → Db
      → Result (Attachment × Message) × Db × S.State
  stored engine a message (false, s) d = (err (attachment_error attachment_upload_failed 502), d, s)
  stored engine a message (true, s) d = saved a message (save engine a d) s

  abbrev pub store :
      Engine
      → ℕ
      → ℕ
      → Text
      → Text
      → User
      → ℕ
      → Option FileStorage
      → Result (ValidatedFile × Message) × Db
      → S.State
      → Result (Attachment × Message) × Db × S.State
  store engine id now message_text file_id user message_id file (err e, d) s = (err e, d, s)
  store engine id now message_text file_id user message_id file (ok (v, message), d) s =
      let a = new_attachment id now message_text file_id user message_id v in
      stored engine a message
        (S.upload_file (storage_path_of message_text file_id v) (content_of file) v.mime_type s) d

  -- `upload_attachment`; the texts are `str(message_id)` and the new `uuid4` of the path
  unfoldable pub upload_attachment :
      Platform
      → Hash
      → AttachmentConfig
      → Engine
      → ℕ
      → ℕ
      → Text
      → Text
      → User
      → ℕ
      → Option FileStorage
      → Db
      → S.State
      → Result (Attachment × Message) × Db × S.State
  upload_attachment platform H config engine id now message_text file_id user message_id file d s =
      store engine id now message_text file_id user message_id file
        (check_upload platform H config now user message_id file d) s

-- `attachment is None or attachment.deleted_at is not None`
abbrev is_hidden : Attachment → Bool
is_hidden a = is_some a.deleted_at

unfoldable pub get_attachment : ℕ → User → ℕ → Action (Attachment × Message)
get_attachment now user attachment_id = do
  a ← fetch (get_attachment_row attachment_id) (attachment_error attachment_not_found 404)
  raise_if (is_hidden a) (attachment_error attachment_not_found 404)
  message ← catch (get_message_for_user now user.id a.message_id) attachment_missing
  pure (a, message)

abbrev pub hide : ℕ → Attachment → Db → Db
hide at a d = record d {
  attachments =
      update_where (λ x. x.id == a.id) (λ x. record x { deleted_at = some at }) d.attachments;
}

-- `delete_attachment` up to the call of the store
unfoldable pub hide_attachment : Engine → ℕ → ℕ → User → ℕ → Action (Attachment × Message)
hide_attachment engine now at user attachment_id = do
  (a, message) ← get_attachment now user attachment_id
  raise_if (not (a.uploader_id == user.id) && not (message.sender_id == user.id))
      (attachment_error attachment_delete_forbidden 403)
  modify (hide at a)
  commit engine
  pure (record a { deleted_at = some at }, message)

module _ (S : Storage) where
  abbrev pub erased :
      Attachment → Message → Db → Bool × S.State → Result (Attachment × Message) × Db × S.State
  erased a message d (true, s) = (ok (a, message), d, s)
  erased a message d (false, s) = (err (attachment_error attachment_delete_failed 502), d, s)

  abbrev pub erase :
      Result (Attachment × Message) × Db → S.State → Result (Attachment × Message) × Db × S.State
  erase (err e, d) s = (err e, d, s)
  erase (ok (a, message), d) s = erased a message d (S.delete_file a.storage_path s)

  unfoldable pub delete_attachment :
      Engine → ℕ → ℕ → User → ℕ → Db → S.State → Result (Attachment × Message) × Db × S.State
  delete_attachment engine now at user attachment_id d s =
      erase (hide_attachment engine now at user attachment_id d) s

  abbrev or_failed : Attachment → Option Text → Result (Attachment × Text)
  or_failed a none = err (attachment_error attachment_access_failed 502)
  or_failed a (some url) = ok (a, url)

  unfoldable pub access_url : AttachmentConfig → ℕ → User → ℕ → S.State → Action (Attachment × Text)
  access_url config now user attachment_id s = do
    (a, message) ← get_attachment now user attachment_id
    lift (or_failed a (S.create_signed_url a.storage_path config.signed_url_expires_seconds s))

abbrev is_earlier : Attachment → Attachment → Bool
is_earlier a b = ltb a.created_at b.created_at || a.created_at == b.created_at && ltb a.id b.id

insert_earliest : Attachment → List Attachment → List Attachment
insert_earliest a [] = a ∷ []
insert_earliest a (b ∷ bs) =
    let rest = insert_earliest a bs in if is_earlier b a then b ∷ rest else a ∷ b ∷ bs

-- `ORDER BY created_at ASC, id ASC`
earliest_first : List Attachment → List Attachment
earliest_first [] = []
earliest_first (a ∷ rest) = insert_earliest a (earliest_first rest)

-- `attachment_repository.get_for_message`
unfoldable pub get_for_message : ℕ → Db → List Attachment
unfolding earliest_first insert_earliest
get_for_message message_id d = earliest_first (filter (is_attached message_id) d.attachments)

unfoldable pub list_message_attachments : ℕ → User → ℕ → Action (List Attachment)
list_message_attachments now user message_id = do
  _ ← catch (get_message_for_user now user.id message_id) access_denied
  gets (get_for_message message_id)
