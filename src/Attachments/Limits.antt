-- ===== src/Attachments/Limits.antt =====
-- The limits on what a message may carry.
use realynk.Base.{ℕ, ◌+◌, ◌<◌, ◌≤◌, sym, subst, Bool, true, false, Option, Text, arith}
use realynk.Models.{Db, User, Message, Attachment}
use realynk.Session.{Engine, Result, ok, err, RestoresOn}
use realynk.Session.Ends.{Ends, Ends-modify, Ends-commit}
use realynk.Attachments.Validator.{Platform, Hash, FileStorage, ValidatedFile}
use realynk.Attachments.{
  Storage, AttachmentConfig, count_for_message, total_size_for_message, megabytes, check_upload,
  new_attachment, add_attachment, storage_path_of, save, saved, stored, store, content_of,
  upload_attachment,
}
use realynk.Attachments.Checks.{Checked, check_upload-Checked}

-- No message carries more attachments, or larger ones together, than the configuration allows.
abbrev pub IsWithin : AttachmentConfig → Db → Type 0
IsWithin config d =
    (m : ℕ)
    → (count_for_message m d ≤ config.max_attachments_per_message)
      × (total_size_for_message m d ≤ megabytes config.max_total_attachment_size_mb)

IsWithin-add :
    (config : AttachmentConfig) (a : Attachment) (d : Db)
    → count_for_message a.message_id d < config.max_attachments_per_message
    → total_size_for_message a.message_id d + a.file_size
      ≤ megabytes config.max_total_attachment_size_mb
    → IsWithin config d
    → IsWithin config (add_attachment a d)
IsWithin-add config a d few small h m = (ground (arith, few, h m), ground (arith, small, h m))

save-IsWithin :
    (engine : Engine) (config : AttachmentConfig) (a : Attachment) (d : Db)
    → RestoresOn engine d
    → IsWithin config d
    → IsWithin config (add_attachment a d)
    → Ends (λ r d'. IsWithin config d') (save engine a) d
unfolding save
save-IsWithin engine config a d restores h k =
    Ends-modify _ _ d
      (Ends-commit engine _ _ (λ _. k) (λ d' r. subst (IsWithin config) (sym (restores _ d' r)) h))

module _ (S : Storage) (config : AttachmentConfig) (engine : Engine) (d : Db)
    (restores : RestoresOn engine d) (within : IsWithin config d) where
  saved-IsWithin :
      (a : Attachment) (message : Message) (r : Result (Unit {0})) (d' : Db) (s : S.State)
      → IsWithin config d'
      → IsWithin config (saved S a message (r, d') s).1
  saved-IsWithin a message (ok _) d' s h = h
  saved-IsWithin a message (err e) d' s h = h

  stored-IsWithin :
      (a : Attachment) (message : Message) (b : Bool) (s : S.State)
      → IsWithin config (add_attachment a d)
      → IsWithin config (stored S engine a message (b, s) d).1
  stored-IsWithin a message false s h = within
  stored-IsWithin a message true s h =
      saved-IsWithin a message (save engine a d).0 (save engine a d).1 s
        (save-IsWithin engine config a d restores within h).at

  store-IsWithin :
      (id now : ℕ) (message_text file_id : Text) (user : User) (message_id : ℕ)
      (file : Option FileStorage) (r : Result (ValidatedFile × Message)) (d' : Db) (s : S.State)
      → Checked config message_id d r d'
      → IsWithin config
          (store S engine id now message_text file_id user message_id file (r, d') s).1
  store-IsWithin id now message_text file_id user message_id file (err e) d' s h =
      subst (IsWithin config) (sym h) within
  store-IsWithin id now message_text file_id user message_id file (ok (v, message)) d' s h =
      subst
        (λ d.
          IsWithin config
            (store S engine id now message_text file_id user message_id file (ok (v, message), d)
              s).1)
        (sym h.0)
        (stored-IsWithin (new_attachment id now message_text file_id user message_id v) message
          (upload v).0 (upload v).1
          (IsWithin-add config (new_attachment id now message_text file_id user message_id v) d h.1
            h.2 within))
    where
      upload : ValidatedFile → Bool × S.State
      upload v =
          S.upload_file (storage_path_of message_text file_id v) (content_of file) v.mime_type s

-- Uploads keep the limits: whatever is sent, and however the store and the database answer, with an
-- engine that restores the state before the call no message gets more attachments or a larger total
-- than the configuration allows.
pub upload_attachment-IsWithin :
    (S : Storage) (platform : Platform) (H : Hash) (config : AttachmentConfig) (engine : Engine)
    (id now : ℕ) (message_text file_id : Text) (user : User) (message_id : ℕ)
    (file : Option FileStorage) (d : Db) (s : S.State)
    → RestoresOn engine d
    → IsWithin config d
    → IsWithin config
        (upload_attachment S platform H config engine id now message_text file_id user message_id
          file d s).1
unfolding upload_attachment
upload_attachment-IsWithin S platform H config engine id now message_text file_id user message_id
      file d s restores within =
    store-IsWithin S config engine d restores within id now message_text file_id user message_id
      file (check_upload platform H config now user message_id file d).0
      (check_upload platform H config now user message_id file d).1 s
      (check_upload-Checked platform H config now user message_id file d).at
