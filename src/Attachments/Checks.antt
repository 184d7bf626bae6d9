-- ===== src/Attachments/Checks.antt =====
-- What an upload has passed before its row is made.
use realynk.Base.{ℕ, ◌+◌, ◌<◌, ◌≤◌, ◌≡◌, refl, Option, arith}
use realynk.Models.{Db, User, Message}
use realynk.Session.{Result, ok, err}
use realynk.Session.Ends.{Ends, Ends-pure, Ends-raise_if, Ends-gets, Ends-lift}
use realynk.Session.Blocks.{}
use realynk.Repositories.{}
use realynk.Messages.{}
use realynk.Messages.Access.{Ends-get_message}
use realynk.Attachments.Validator.{Platform, Hash, FileStorage, ValidatedFile}
use realynk.Attachments.{
  AttachmentConfig, count_for_message, total_size_for_message, megabytes, check_upload,
}

abbrev pub Checked : AttachmentConfig → ℕ → Db → Result (ValidatedFile × Message) → Db → Type 0
Checked config message_id d (ok (v, message)) d' =
    (d' ≡ d)
    × (count_for_message message_id d < config.max_attachments_per_message)
    × (total_size_for_message message_id d + v.file_size
        ≤ megabytes config.max_total_attachment_size_mb)
Checked config message_id d (err e) d' = d' ≡ d

pub check_upload-Checked :
    (platform : Platform) (H : Hash) (config : AttachmentConfig) (now : ℕ) (user : User)
    (message_id : ℕ) (file : Option FileStorage) (d : Db)
    → Ends (Checked config message_id d) (check_upload platform H config now user message_id file) d
unfolding check_upload
check_upload-Checked platform H config now user message_id file d =
    Ends-get_message now user.id message_id _ _ d (λ _ _. refl)
      λ message _ _.
        Ends-raise_if _ _ _ d (λ _. refl)
          λ _.
            Ends-lift _ _ d (λ _ _. refl)
              λ v _. Ends-gets _ _ d (
                Ends-raise_if _ _ _ d (λ _. refl)
                  λ few. Ends-gets _ _ d (
                    Ends-raise_if _ _ _ d (λ _. refl)
                      λ small. Ends-pure _ d (refl, ground (arith, few), ground (arith, small))))
