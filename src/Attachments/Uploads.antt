-- ===== src/Attachments/Uploads.antt =====
-- What an upload leaves in the database and in the object store.
use realynk.Base.{ℕ, ◌≡◌, ◌⊎◌, inl, inr, refl, sym, subst, Bool, true, false, Option, Text}
use realynk.Models.{Db, User, Message, Attachment}
use realynk.Session.{
  Engine, Result, ok, err, RestoresOn, attachment_error, attachment_upload_failed,
}
use realynk.Session.Ends.{Ends, Ends-modify, Ends-commit}
use realynk.Attachments.Validator.{Platform, Hash, FileStorage, ValidatedFile}
use realynk.Attachments.{
  Storage, AttachmentConfig, check_upload, new_attachment, add_attachment, save, saved, stored,
  store, content_of, upload_attachment,
}
use realynk.Attachments.Checks.{Checked, check_upload-Checked}

-- A commit of a row goes through, or raises the error of an upload and leaves the database as it was.
abbrev Saved : Attachment → Db → Result (Unit {0}) → Db → Type 0
Saved a d (ok _) d' = d' ≡ add_attachment a d
Saved a d (err e) d' = (e ≡ attachment_error attachment_upload_failed 500) × (d' ≡ d)

save-Saved :
    (engine : Engine) (a : Attachment) (d : Db)
    → RestoresOn engine d
    → Ends (Saved a d) (save engine a) d
unfolding save
save-Saved engine a d restores =
    Ends-modify _ _ d (Ends-commit engine _ _ (λ _. refl) (λ d' r. (refl, restores _ d' r)))

module _ (S : Storage) where
  -- The object of an attachment, sent to the store.
  abbrev sent : Attachment → Text → S.State → Bool × S.State
  sent a content s = S.upload_file a.storage_path content a.mime_type s

  -- The store is as it was; or it refused the object; or it took the object, and was asked to
  -- delete it again.
  abbrev pub IsUndone : Text → S.State → S.State → Type 0
  IsUndone content s s' =
      (s' ≡ s)
      ⊎ ((a : Attachment) × (sent a content s ≡ (false, s')))
      ⊎ ((a : Attachment) × (t : S.State) × (sent a content s ≡ (true, t))
          × (s' ≡ (S.delete_file a.storage_path t).1))

  abbrev pub UploadOutcome :
      Text → Db → S.State → Result (Attachment × Message) → Db → S.State → Type 0
  UploadOutcome content d s (ok (a, message)) d' s' =
      (d' ≡ add_attachment a d) × (sent a content s ≡ (true, s'))
  UploadOutcome content d s (err e) d' s' = (d' ≡ d) × IsUndone content s s'

  abbrev pub OutcomeOf : Text → Db → S.State → Result (Attachment × Message) × Db × S.State → Type 0
  OutcomeOf content d s (r, d', s') = UploadOutcome content d s r d' s'

  module _ (engine : Engine) (d : Db) (restores : RestoresOn engine d) (content : Text)
      (s : S.State) where
    saved-UploadOutcome :
        (a : Attachment) (message : Message) (t : S.State) (r : Result (Unit {0})) (d' : Db)
        → sent a content s ≡ (true, t)
        → Saved a d r d'
        → OutcomeOf content d s (saved S a message (r, d') t)
    saved-UploadOutcome a message t (ok _) d' e h = (h, e)
    saved-UploadOutcome a message t (err x) d' e h = (h.1, inr (inr (a, t, e, refl)))

    stored-UploadOutcome :
        (a : Attachment) (message : Message) (b : Bool) (t : S.State)
        → sent a content s ≡ (b, t)
        → OutcomeOf content d s (stored S engine a message (b, t) d)
    stored-UploadOutcome a message false t e = (refl, inr (inl (a, e)))
    stored-UploadOutcome a message true t e =
        saved-UploadOutcome a message t (save engine a d).0 (save engine a d).1 e
          (save-Saved engine a d restores).at

    store-UploadOutcome :
        (config : AttachmentConfig) (id now : ℕ) (message_text file_id : Text) (user : User)
        (message_id : ℕ) (file : Option FileStorage) (r : Result (ValidatedFile × Message))
        (d' : Db)
        → content ≡ content_of file
        → Checked config message_id d r d'
        → OutcomeOf content d s
            (store S engine id now message_text file_id user message_id file (r, d') s)
    store-UploadOutcome config id now message_text file_id user message_id file (err e) d' c h =
        (h, inl refl)
    store-UploadOutcome config id now message_text file_id user message_id file (ok (v, message)) d'
          c h =
        subst
          (λ d'. OutcomeOf content d s (
            store S engine id now message_text file_id user message_id file (ok (v, message), d')
              s))
          (sym h.0)
          (subst (λ x. OutcomeOf content d s (stored S engine (a v) message (sent (a v) x s) d)) c
            (stored-UploadOutcome (a v) message (sent (a v) content s).0 (sent (a v) content s).1
              refl))
      where
        a : ValidatedFile → Attachment
        a v = new_attachment id now message_text file_id user message_id v

-- What an upload leaves, with an engine that restores the state before the call. Where it returns an attachment, its row is the one change of the database
-- and the store has taken its content. Where it fails, the database is as before, and the store is
-- too, or it refused the object, or it was asked to delete the object that it had taken; that deletion
-- may fail too.
pub upload_attachment-UploadOutcome :
    (S : Storage) (platform : Platform) (H : Hash) (config : AttachmentConfig) (engine : Engine)
    (id now : ℕ) (message_text file_id : Text) (user : User) (message_id : ℕ)
    (file : Option FileStorage) (d : Db) (s : S.State)
    → RestoresOn engine d
    → OutcomeOf S (content_of file) d s (
        upload_attachment S platform H config engine id now message_text file_id user message_id
          file d s)
unfolding upload_attachment
upload_attachment-UploadOutcome S platform H config engine id now message_text file_id user
      message_id file d s restores =
    store-UploadOutcome S engine d restores (content_of file) s config id now message_text file_id
      user message_id file (check_upload platform H config now user message_id file d).0
      (check_upload platform H config now user message_id file d).1 refl
      (check_upload-Checked platform H config now user message_id file d).at
