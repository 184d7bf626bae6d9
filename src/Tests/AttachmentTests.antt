-- ===== src/Tests/AttachmentTests.antt =====
-- Bob sends a picture with his message.
use realynk.Base.{◌≡◌, refl, some, codes, [], arith}
use realynk.Models.{}
use realynk.Session.{}
use realynk.Constraints.Checked.{checking, checking-RestoresOn}
use realynk.Attachments.{upload_attachment}
use realynk.Attachments.Filenames.{sanitize_filename}
use realynk.Attachments.Validator.{FileStorage, checksum, validate_file}
use realynk.Attachments.Validator.Accepted.{Passes, validate_file-Passes}
use realynk.Attachments.Validator.Hashing.{checksum_lem}
use realynk.Attachments.Limits.{IsWithin, upload_attachment-IsWithin}
use realynk.Attachments.Uploads.{OutcomeOf, upload_attachment-UploadOutcome}
use realynk.Tests.Scenario.{town, bob}
use realynk.Tests.Platforms.{
  ascii_word, plain_platform, plain_hash, plain_hash-IsStreaming, shelf, small_limits,
}

path_is_dropped : sanitize_filename ascii_word (codes "../up/a?b.gif") ≡ some (codes "a_b.gif")
unfolding sanitize_filename
path_is_dropped = refl

abbrev picture : FileStorage
picture = record {
  filename = codes "a.gif";
  mimetype = codes "image/gif";
  stream = codes "GIF89a...";
}

checksum_lem_example : checksum plain_hash (codes "GIF89a...") ≡ codes "GIF89a..."
checksum_lem_example = checksum_lem plain_hash (codes "GIF89a...") plain_hash-IsStreaming

validate_file-Passes_example :
    Passes plain_platform plain_hash 1000
      (some picture)
      (validate_file plain_platform plain_hash (some picture) 1000)
validate_file-Passes_example = validate_file-Passes plain_platform plain_hash (some picture) 1000

town-IsWithin : IsWithin small_limits town
town-IsWithin m = (omega arith, omega arith)

upload_attachment-IsWithin_example :
    IsWithin small_limits
      (upload_attachment shelf plain_platform plain_hash small_limits
        (checking town)
        50
        9
        (codes "30")
        (codes "1")
        bob
        30
        (some picture)
        town
        []).1
upload_attachment-IsWithin_example =
    upload_attachment-IsWithin shelf plain_platform plain_hash small_limits (checking town) 50 9
      (codes "30") (codes "1") bob 30 (some picture) town [] (checking-RestoresOn town)
      town-IsWithin

upload_attachment-UploadOutcome_example : OutcomeOf shelf (codes "GIF89a...") town [] (
    upload_attachment shelf plain_platform plain_hash small_limits
      (checking town)
      50
      9
      (codes "30")
      (codes "1")
      bob
      30
      (some picture)
      town
      [])
upload_attachment-UploadOutcome_example =
    upload_attachment-UploadOutcome shelf plain_platform plain_hash small_limits (checking town) 50
      9 (codes "30") (codes "1") bob 30 (some picture) town [] (checking-RestoresOn town)
